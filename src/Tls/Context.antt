-- ===== src/Tls/Context.antt =====
-- `SslHelper::initOpenSsl`, `generateSelfSignedCert` and the destructor. What OpenSSL's calls give
-- is a record of answers; what has to be freed is listed as it is made and freed, newest first.
use titan_share.Prelude.{
  ℕ, suc, ◌≤◌, ◌==◌, ◌≡◌, Bool, true, false, ◌&&◌, if◌then◌else◌, List, [], ◌∷◌, Bytes, codes,
  arith,
}

pub data Thing : Type 0 where
  ssl_ctx key_ctx key cert : Thing

pub data Setting : Type 0 where
  min_proto_tls1_2 : Setting
  -- The serial number, and the times from which and up to which the certificate is valid, in seconds
  -- from now.
  serial_number valid_from valid_to : ℕ → Setting
  public_key : Setting
  common_name : Bytes → Setting
  issuer_is_subject : Setting

pub data SslCall : Type 0 where
  makes frees : Thing → SslCall
  -- A call whose result the source ignores, and that result.
  sets : Setting → Bool → SslCall
  signs_sha256 : SslCall
  uses_cert uses_key : SslCall

-- Which calls succeed. `EVP_PKEY_keygen` makes the key where it succeeds.
pub record Answers : Type 0 where
  pub has_ctx : Bool
  pub has_key_ctx : Bool
  pub keygen_init : Bool
  pub rsa_bits : Bool
  pub keygen : Bool
  pub has_cert : Bool
  pub signs : Bool
  pub takes_cert : Bool
  pub takes_key : Bool
  -- The calls whose results the source ignores.
  pub ignored : Setting → Bool

-- `m_ctx`, `m_pkey` and `m_cert`, as far as they are no null pointers, and the calls.
pub record SslHelper : Type 0 where
  pub ctx : Bool
  pub pkey : Bool
  pub cert : Bool
  pub calls : List SslCall

abbrev pub empty : SslHelper
empty = record { ctx = false; pkey = false; cert = false; calls = [] }

-- The calls of one list, in its order, whatever they give.
abbrev set_all : Answers → List Setting → List SslCall → List SslCall
set_all a [] calls = calls
set_all a (s ∷ ss) calls = set_all a ss (sets s (a.ignored s) ∷ calls)

abbrev call : SslCall → SslHelper → SslHelper
call c h = record h { calls = c ∷ h.calls }

abbrev cert_settings : List Setting
cert_settings =
    serial_number 1
    ∷ valid_from 0
    ∷ valid_to 315360000
    ∷ public_key
    ∷ common_name (codes "TitanShare Daemon")
    ∷ issuer_is_subject
    ∷ []

-- The certificate is filled in, signed, and handed to the context.
unfoldable pub fill_cert : Answers → SslHelper → Bool × SslHelper
fill_cert a h =
    let h' = record h { calls = signs_sha256 ∷ set_all a cert_settings h.calls } in
    if a.signs
    then if a.takes_cert
      then (a.takes_key, call uses_key (call uses_cert h'))
      else (false, call uses_cert h')
    else (false, h')

unfoldable pub make_cert : Answers → SslHelper → Bool × SslHelper
make_cert a h =
    if a.has_cert
    then fill_cert a (record h { cert = true; calls = makes cert ∷ h.calls })
    else (false, h)

-- `generateSelfSignedCert`.
unfoldable pub generate_self_signed_cert : Answers → SslHelper → Bool × SslHelper
generate_self_signed_cert a h =
    if a.has_key_ctx
    then if a.keygen_init && a.rsa_bits && a.keygen
      then make_cert a
          (record h { pkey = true; calls = frees key_ctx ∷ makes key ∷ makes key_ctx ∷ h.calls })
      else (false, record h { calls = frees key_ctx ∷ makes key_ctx ∷ h.calls })
    else (false, h)

-- `initOpenSsl`, and whether there is a certificate at the end.
unfoldable pub init_open_ssl : Answers → SslHelper → Bool × SslHelper
init_open_ssl a h =
    if a.has_ctx
    then generate_self_signed_cert a (record h {
      ctx = true;
      calls = set_all a (min_proto_tls1_2 ∷ []) (makes ssl_ctx ∷ h.calls);
    })
    else (false, record h { ctx = false })

abbrev free_if : Bool → Thing → List SslCall → List SslCall
free_if there t calls = if there then frees t ∷ calls else calls

-- The destructor.
unfoldable pub destroy_helper : SslHelper → List SslCall
destroy_helper h = free_if h.ctx ssl_ctx (free_if h.pkey key (free_if h.cert cert h.calls))

abbrev thing_index : Thing → ℕ
thing_index ssl_ctx = 0
thing_index key_ctx = 1
thing_index key = 2
thing_index cert = 3

abbrev same : Thing → Thing → Bool
same a b = thing_index a == thing_index b

-- How often a thing was made, and freed.
abbrev pub made : Thing → List SslCall → ℕ
made t [] = 0
made t (makes u ∷ cs) = if same t u then suc (made t cs) else made t cs
made t (_ ∷ cs) = made t cs

abbrev pub freed : Thing → List SslCall → ℕ
freed t [] = 0
freed t (frees u ∷ cs) = if same t u then suc (freed t cs) else freed t cs
freed t (_ ∷ cs) = freed t cs

-- Whatever of OpenSSL fails, all that was made is freed once with the destructor, and nothing was
-- made twice; and a certificate is reported exactly if the nine calls succeed whose results the
-- source tests, whatever those give whose results it ignores.
pub destroy_helper-init_open_ssl :
    (a : Answers) (t : Thing)
    → (freed t (destroy_helper (init_open_ssl a empty).1)
        ≡ made t (destroy_helper (init_open_ssl a empty).1))
      × (made t (destroy_helper (init_open_ssl a empty).1) ≤ 1)
      × ((init_open_ssl a empty).0 ≡ (
          a.has_ctx
          && (a.has_key_ctx
              && (a.keygen_init
                  && (a.rsa_bits
                      && (a.keygen
                          && (a.has_cert && (a.signs && (a.takes_cert && a.takes_key)))))))))
unfolding destroy_helper init_open_ssl generate_self_signed_cert make_cert fill_cert
destroy_helper-init_open_ssl a ssl_ctx = ground arith
destroy_helper-init_open_ssl a key_ctx = ground arith
destroy_helper-init_open_ssl a key = ground arith
destroy_helper-init_open_ssl a cert = ground arith
