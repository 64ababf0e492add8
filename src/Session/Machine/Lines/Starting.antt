-- ===== src/Session/Machine/Lines/Starting.antt =====
-- The round of the loop that takes the line announcing a file.
use titan_share.Prelude.{
  ℕ, zero, suc, ◌+◌, ◌<◌, ◌≡◌, refl, true, ap, ◌∙◌, some, [], ◌∷◌, ◌++◌, length, Bytes, arith,
}
use titan_share.Session.State.{Session, Env, World, Exec, Returns}
use titan_share.Session.Buffer.{buf_data, consume_buffer}
use titan_share.Session.Header.{sanitize}
use titan_share.Session.FileStart.{file_start_line, handle_header_file_start}
use titan_share.Session.Upload.Content.{received_file}
use titan_share.Session.Machine.{run_stage, process_loop}
use titan_share.Session.Machine.Lines.{
  Reads, IsListening, next_line-stream, stage_of, behind_line, loop_goes,
}
use titan_share.Session.Machine.Lines.Taking.{IsRoomy, IsTaking, Progresses}
use titan_share.Session.Machine.Lines.Continuing.{loop-Progresses}
use titan_share.Session.Machine.Lines.Announced.{
  drop_return-file_start_line, file_start_line_is_one, CanOpen, IsNamed, opened,
  open_received_opened, header_stage,
}

-- A client announces `content` under `name`, on a disk that takes it, to a session that is `s` but
-- for its buffer.
module _ (env : Env) (s : Session) (w : World) (name content : Bytes) (fd : ℕ) (roomy : IsRoomy env)
    (listening : IsListening s) (named : IsNamed name content) (can : CanOpen env name fd w)
    (fresh : received_file fd w.trace ≡ []) (printable : env.dumps (sanitize name) ≡ true) where
  opened-IsTaking :
      (t : Session) (got : Bytes)
      → Reads s got t
      → IsTaking env fd (length content) [] got (opened env name (length content) fd t w)
  unfolding buf_data
  opened-IsTaking t got r = record {
    in_stage = refl;
    is_open = ap (λ (x : Session). x.closed) r.same ∙ listening.is_open;
    printable = printable;
    file = refl;
    expected_is = refl;
    counted = refl;
    missing = named.some_content;
    in_range = r.in_range;
    read = r.queue;
    written = fresh;
  }

  -- The announcing line is complete, and `got` of the content is there already.
  line_round :
      (t : Session) (got : Bytes) (next : Session → World → Exec (Session × World))
      → Reads s (file_start_line name (length content) ++ b'\n' ∷ got) t
      → let t' = consume_buffer (length (file_start_line name (length content)) + 1) t in
        let q = opened env name (length content) fd t' w in
        run_stage env next t.stage t w ≡ next q.0 q.1
  line_round t got next r =
      let n = length content in
      let line = file_start_line name n in
      let t' = consume_buffer (length line + 1) t in
      ap (λ st. run_stage env next st t w) (stage_of env s listening _ t r)
      ∙ header_stage env next t t' w line (opened env name n fd t' w)
          (next_line-stream t line got (file_start_line_is_one name n named.one_line) r.queue
            ∙ ap (λ l. some (l, t')) (drop_return-file_start_line name n))
          (handle_header_file_start env name n t' w named.some_name named.some_content named.limited
            ∙ open_received_opened env name n fd t' w roomy can)

  pub loop_starts :
      (t : Session) (got rest : Bytes) (fuel : ℕ)
      → got ++ rest ≡ content
      → Reads s (file_start_line name (length content) ++ b'\n' ∷ got) t
      → 0 < fuel
      → Returns (Progresses env fd content got) (process_loop env (suc fuel) t w)
  loop_starts t got rest zero e r enough = absurd (omega arith)
  loop_starts t got rest (suc fuel) e r enough =
      let n = length content in
      let line = file_start_line name n in
      let t' = consume_buffer (length line + 1) t in
      let q = opened env name n fd t' w in
      rw
        (
          loop_goes env s listening (suc fuel) t w line got r,
          line_round t got (process_loop env (suc fuel)) r,
          Returns,
        )
        (loop-Progresses env roomy fd fuel content [] got rest q.0 q.1 e
          (opened-IsTaking t' got (behind_line env s listening t line got r)))
