-- ===== src/Auth/Fingerprint/Acceptance.antt =====
-- Which requests the session validator accepts.
use costpilot.Prelude.{◌≡◌, ◌↔◌, refl, true, false, some, List, [], ◌∷◌, arith}
use costpilot.Text.{Text, split}
use costpilot.Text.Laws.{text_instance, text_eq_iff, text_eq_refl}
use costpilot.Auth.Fingerprint.{
  Validator, Request, given, ips_in_same_subnet, same_parts, validate_ip_binding,
  is_minor_ua_change, generate_session_fingerprint, ip_matches, fingerprint_matches, SessionData,
  validate_request,
}

same_parts_refl : (parts : List Text) (ip : Text) → same_parts parts parts ip ip ≡ true
unfolding same_parts
same_parts_refl [] ip = text_eq_refl ip
same_parts_refl (a ∷ []) ip = text_eq_refl ip
same_parts_refl (a ∷ b ∷ []) ip = text_eq_refl ip
same_parts_refl (a ∷ b ∷ c ∷ []) ip = text_eq_refl ip
same_parts_refl (a ∷ b ∷ c ∷ d ∷ []) ip = rw (text_eq_refl a, text_eq_refl b, text_eq_refl c) refl
same_parts_refl (a ∷ b ∷ c ∷ d ∷ e ∷ r) ip = text_eq_refl ip

ips_in_same_subnet_refl : (ip : Text) → ips_in_same_subnet ip ip ≡ true
unfolding ips_in_same_subnet
ips_in_same_subnet_refl ip = same_parts_refl (split b'.' ip) ip

module _ (sha256 : Text → Text) where
  -- With both bindings required, and with an address and a fingerprint stored and an address of the
  -- request known: in strict mode a request is accepted exactly with the same address and the same
  -- fingerprint; in lenient mode exactly from the same subnet, whatever its fingerprint is.
  pub validate_request_iff :
      (v : Validator) (r : Request) (session : SessionData) (ip ip' fingerprint : Text)
      → v.require_ip_binding ≡ true
      → v.require_fingerprint_binding ≡ true
      → given r.host ≡ some ip'
      → given session.ip_address ≡ some ip
      → given session.fingerprint ≡ some fingerprint
      → (session.strict_mode ≡ true
          → ((validate_request sha256 v r session ≡ true)
              ↔ ((ip ≡ ip') × (fingerprint ≡ generate_session_fingerprint sha256 r))))
        × (session.strict_mode ≡ false
            → validate_request sha256 v r session ≡ ips_in_same_subnet ip ip')
  unfolding validate_request ip_matches fingerprint_matches validate_ip_binding is_minor_ua_change
  validate_request_iff v r session ip ip' fingerprint a b c d e = (
    λ strict.
        rw (a, b, c, d, e, strict, validate_request)
          (ground (
            arith,
            text_eq_iff ip ip',
            text_eq_iff fingerprint (generate_session_fingerprint sha256 r),
          )),
    λ lenient.
        rw (a, b, c, d, e, lenient, validate_request)
          (ground (arith, text_eq_iff ip ip', ips_in_same_subnet_refl ip)),
  )
