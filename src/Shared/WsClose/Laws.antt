-- ===== src/Shared/WsClose/Laws.antt =====
-- What internal/shared/wsclose.go promises of the codes that are put on the wire.
use https_proxy.Base.{ℕ, ◌≤◌, ◌<◌, ◌≡◌, ◌≢◌, arith}
use https_proxy.Base.Int.{ℤ, pos, negsuc}
use https_proxy.Shared.WsClose.{sanitize_close_code}

-- A code that may be put on the wire.
pub record IsSendable (code : ℕ) : Type 0 where
  pub low : 1000 ≤ code
  pub high : code < 5000
  pub status : code ≢ 1005
  pub abnormal : code ≢ 1006
  pub tls : code ≢ 1015

-- Whatever integer a peer sends as a close code, what is relayed may be put on the wire; a code that
-- already may is relayed as it is.
pub sanitize_close_code_lem :
    (code : ℤ)
    → IsSendable (sanitize_close_code code)
      × ((n : ℕ) → code ≡ pos n → IsSendable n → sanitize_close_code code ≡ n)
unfolding sanitize_close_code
sanitize_close_code_lem (negsuc k) = (ground arith, λ n e v. cc)
sanitize_close_code_lem (pos k) = (ground arith, λ n e v. ground arith)
