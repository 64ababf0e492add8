-- ===== src/Session/Machine/Lines/Continuing.antt =====
-- The rest of an upload, read by read.
use titan_share.Prelude.{
  subst, ℕ, suc, ◌<◌, ◌==◌, ◌≡◌, refl, sym, ap, ◌∙◌, false, ◌||◌, List, [], ◌∷◌, ◌++◌, append_assoc,
  append-nil, length, length-append, Bytes, inl, inr, Bool-cases, arith,
}
use titan_share.Session.State.{Session, Env, World, Returns, Returns-bind}
use titan_share.Session.Buffer.{buf_size, length-buf_data}
use titan_share.Session.Upload.Content.{handle_file_data_open}
use titan_share.Session.Machine.Transfer.{
  append_read, buf_data-append_read, run_stage_data, not_auth, on_data_past_auth,
}
use titan_share.Session.Machine.Lines.{join, feed}
use titan_share.Session.Machine.{process_loop, process_buffer, is_auth, on_data}
use titan_share.Session.Machine.Lines.Taking.{
  IsRoomy, IsTaking, IsUploaded, Progresses, write_some-Progresses,
}

length_zero : (xs : Bytes) → length xs ≡ 0 → xs ≡ []
length_zero [] h = refl
length_zero (x ∷ xs) h = absurd (omega arith)

module _ (env : Env) (roomy : IsRoomy env) (fd : ℕ) where
  pub loop-Progresses :
      (fuel : ℕ) (content got queue rest : Bytes) (s : Session) (w : World)
      → (got ++ queue) ++ rest ≡ content
      → IsTaking env fd (length content) got queue (s, w)
      → Returns (Progresses env fd content (got ++ queue)) (process_loop env (suc fuel) s w)
  unfolding process_loop
  loop-Progresses fuel content got queue rest s w e r =
      elim (Bool-cases (s.closed || buf_size s == 0)) [
        | inl stop ↦
            let none_left : length queue ≡ 0 =
              ground (arith, stop, r.is_open, sym (length-buf_data s), ap length r.read) in
            let nothing : queue ≡ [] = length_zero queue none_left in
            let same : got ++ queue ≡ got = ap (◌++◌ got) nothing ∙ append-nil got in
            rw (stop, Returns)
              (subst (λ g. Progresses env fd content g (s, w)) (sym same)
                (inl (subst (λ b. IsTaking env fd (length content) got b (s, w)) nothing r)))
        | inr go ↦
            let bytes : (buf_size s == 0) ≡ false = ground (arith, go) in
            let some_left : 0 < length queue =
              ground (arith, bytes, sym (length-buf_data s), ap length r.read) in
            rw (go, run_stage_data env (process_loop env fuel) s.stage s w r.in_stage, Returns)
              (rw (handle_file_data_open env fd s w r.file, Returns)
                (rw (bytes, Returns)
                  (write_some-Progresses env roomy fd content got queue rest s w some_left e r)))
      ]

  on_data-Progresses :
      (content got bytes rest : Bytes) (s : Session) (w : World)
      → (got ++ bytes) ++ rest ≡ content
      → IsTaking env fd (length content) got [] (s, w)
      → Returns (Progresses env fd content (got ++ bytes)) (on_data env bytes s w)
  on_data-Progresses content got bytes rest s w e r =
      rw (on_data_past_auth env bytes s w r.is_open (not_auth s.stage r.in_stage), Returns)
        (loop-Progresses (buf_size (append_read bytes s)) content got bytes rest
          (append_read bytes s) w e
          (record {
            in_stage = r.in_stage;
            is_open = r.is_open;
            printable = r.printable;
            file = r.file;
            expected_is = r.expected_is;
            counted = r.counted;
            missing = r.missing;
            in_range = omega (arith, r.in_range, length-append s.buffer bytes);
            read = buf_data-append_read bytes s r.in_range ∙ ap (λ b. b ++ bytes) r.read;
            written = r.written;
          }))

  -- A read of nothing, once the file is there.
  on_data-IsUploaded :
      (content : Bytes) (s : Session) (w : World)
      → IsUploaded fd content (s, w)
      → Returns (IsUploaded fd content) (on_data env [] s w)
  unfolding on_data process_buffer process_loop is_auth
  on_data-IsUploaded content s w u =
      ground (arith, append-nil s.buffer, length-buf_data s, ap length u.read)

  pub reads-IsUploaded :
      (content got : Bytes) (chunks : List Bytes) (s : Session) (w : World)
      → got ++ join chunks ≡ content
      → Progresses env fd content got (s, w)
      → Returns (IsUploaded fd content) (feed env chunks s w)
  unfolding feed
  reads-IsUploaded content got [] s w e (inl r) =
      absurd (omega (arith, r.missing, ap length (sym (append-nil got) ∙ e)))
  reads-IsUploaded content got [] s w e (inr (all, u)) = u
  reads-IsUploaded content got (c ∷ chunks) s w e (inl r) =
      let e' = append_assoc got c (join chunks) ∙ e in
      Returns-bind (Progresses env fd content (got ++ c)) (IsUploaded fd content)
        (on_data env c s w) _ (on_data-Progresses content got c (join chunks) s w e' r)
        λ q p. reads-IsUploaded content (got ++ c) chunks q.0 q.1 e' p
  reads-IsUploaded content got ([] ∷ chunks) s w e (inr (all, u)) =
      Returns-bind (IsUploaded fd content) (IsUploaded fd content) (on_data env [] s w) _
        (on_data-IsUploaded content s w u)
        λ q v. reads-IsUploaded content got chunks q.0 q.1 e (inr (all, v))
  reads-IsUploaded content got ((x ∷ c) ∷ chunks) s w e (inr (all, u)) =
      absurd (omega (arith, ap length e, ap length all, length-append got (x ∷ c ++ join chunks)))
