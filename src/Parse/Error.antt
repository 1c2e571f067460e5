-- ===== src/Parse/Error.antt =====
-- The errors of proxies/internal/parse/parse.go, and results with errors.
use proxy_harv.Text.{Bytes}

-- The share-link protocols: the values of the table `schemes`.
pub data Protocol : Type 0 where
  vless vmess ss trojan hysteria2 socks anytls tuic hysteria : Protocol

pub data Error : Type 0 where
  not_share_link empty_uri missing_delimiter unterminated_ipv6 : Error
  junk_after_ipv6 invalid_port bad_port : Bytes → Error
  vmess_payload vmess_missing : Error
  ss_not_base64 ss_missing_host ss_missing_secret tuic_missing_uuid : Error
  -- fmt.Errorf("%s: %w", proto, err)
  in_protocol : Protocol → Error → Error

-- What `(value, error)` stands for: a value, or an error that is not nil.
pub data Result {κ} (Value : Type κ) : Type κ where
  err : Error → Result Value
  ok : Value → Result Value

-- if err != nil { return nil, err }
infixl 4 ◌>>=◌
abbrev pub ◌>>=◌ {κ ℓ} :
    {Value : Type κ} {Next : Type ℓ} → Result Value → (Value → Result Next) → Result Next
err e >>= next = err e
ok v >>= next = next v
