-- ===== src/Tls/Tests.antt =====
-- A handshake with a client that stays silent, and a response that is sent in pieces.
use titan_share.Prelude.{
  ℕ, ◌*◌, ◌≤◌, ◌==◌, ◌≡◌, refl, true, false, if◌then◌else◌, some, codes, arith,
}
use titan_share.Tls.Accept.{Turn, wants_read, accept_tls, IsOwned, accept_tls-IsOwned}
use titan_share.Tls.Context.{
  Answers, key, empty, init_open_ssl, destroy_helper, made, freed, destroy_helper-init_open_ssl,
}
use titan_share.Tls.Send.{Write, took_more_than, wants_again, send_response, send_response_delivers}

-- Each turn takes a second.
abbrev silent : ℕ → Turn
silent i = record { handshake = wants_read; now = i * 1000000000; ready = true }

accept_tls-IsOwned_example : IsOwned (accept_tls true true silent 0 6)
accept_tls-IsOwned_example = accept_tls-IsOwned silent 0 5 6 (omega arith) (omega arith)

-- The second call has to wait; every other one takes four bytes.
abbrev pieces : ℕ → Write
pieces i = if i == 1 then wants_again else took_more_than 3

send_response_delivers_example :
    send_response true 0 pieces 9 (codes "AUTH_OK\n") ≡ some (codes "AUTH_OK\n")
send_response_delivers_example =
    send_response_delivers 0 pieces 9 (codes "AUTH_OK\n") refl (omega arith)

-- The key is made, but the certificate cannot be signed.
abbrev unsigned : Answers
unsigned = record {
  has_ctx = true;
  has_key_ctx = true;
  keygen_init = true;
  rsa_bits = true;
  keygen = true;
  has_cert = true;
  signs = false;
  takes_cert = true;
  takes_key = true;
  ignored = λ s. false;
}

destroy_helper-init_open_ssl_example :
    (freed key (destroy_helper (init_open_ssl unsigned empty).1)
      ≡ made key (destroy_helper (init_open_ssl unsigned empty).1))
    × (made key (destroy_helper (init_open_ssl unsigned empty).1) ≤ 1)
    × ((init_open_ssl unsigned empty).0 ≡ false)
destroy_helper-init_open_ssl_example = destroy_helper-init_open_ssl unsigned key
