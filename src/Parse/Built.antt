-- ===== src/Parse/Built.antt =====
-- What a builder of proxies/internal/parse/parse.go fills in.
use proxy_harv.Text.{Bytes}
use proxy_harv.Text.Number.{ℤ}
use proxy_harv.Parse.Outbound.{Fields}

-- n.Host, n.Port, n.Transport, and the outbound.
pub record Built : Type 0 where
  pub host : Bytes
  pub port : ℤ
  pub transport : Bytes
  pub out : Fields
