-- ===== src/Auth/Fingerprint.antt =====
-- `SessionSecurityValidator` of backend/app/auth/session_security.py: is a request from where its
-- session was opened? The digest is a parameter. An empty text counts as none.
pub mod Acceptance
mod Tests
use costpilot.Prelude.{
  Bool, true, false, not, ◌&&◌, ◌||◌, Option, none, some, List, [], ◌∷◌, ◌++◌, if◌then◌else◌, ◌==◌,
}
use costpilot.Text.{Text, split}
use costpilot.Text.Laws.{text_instance}

pub record Validator : Type 0 where
  pub require_ip_binding : Bool
  pub require_fingerprint_binding : Bool

-- `request.client.host` and the headers that the fingerprint is made of
pub record Request : Type 0 where
  pub host : Option Text
  pub user_agent : Option Text
  pub accept_language : Option Text
  pub accept_encoding : Option Text
  pub dnt : Option Text

pub data FailureReason : Type 0 where
  ip_address_mismatch fingerprint_mismatch : FailureReason

abbrev or_empty : Option Text → Text
or_empty none = []
or_empty (some s) = s

-- `if s`
abbrev pub given : Option Text → Option Text
given none = none
given (some []) = none
given (some (c ∷ s)) = some (c ∷ s)

-- `"|".join(components)`
join : List Text → Text
join [] = []
join (s ∷ []) = s
join (s ∷ t ∷ ts) = s ++ (b'|' ∷ join (t ∷ ts))

-- the first three of four parts
same_parts : List Text → List Text → Text → Text → Bool
same_parts (a ∷ b ∷ c ∷ d ∷ []) (a' ∷ b' ∷ c' ∷ d' ∷ []) ip1 ip2 = a == a' && (b == b' && c == c')
same_parts _ _ ip1 ip2 = ip1 == ip2

unfoldable pub ips_in_same_subnet : Text → Text → Bool
unfolding same_parts
ips_in_same_subnet ip1 ip2 = same_parts (split b'.' ip1) (split b'.' ip2) ip1 ip2

unfoldable pub validate_ip_binding : Text → Text → Bool → Bool
validate_ip_binding stored_ip current_ip strict_mode =
    if stored_ip == current_ip
    then true
    else if strict_mode
    then false
    else ips_in_same_subnet stored_ip current_ip

-- any change counts
unfoldable pub is_minor_ua_change : Text → Text → Bool
is_minor_ua_change fingerprint1 fingerprint2 = false

-- What the session keeps of the request that opened it.
pub record SessionData : Type 0 where
  pub fingerprint : Option Text
  pub ip_address : Option Text
  pub strict_mode : Bool

module _ (sha256 : Text → Text) where
  unfoldable pub generate_session_fingerprint : Request → Text
  unfolding join
  generate_session_fingerprint r = sha256 (
      join (
        or_empty r.host
        ∷ or_empty r.user_agent
        ∷ or_empty r.accept_language
        ∷ or_empty r.accept_encoding
        ∷ or_empty r.dnt
        ∷ []))

  -- the test of the address, if it is wanted and both are known
  ip_matches : Bool → Option Text → Option Text → Bool → Bool
  unfolding validate_ip_binding
  ip_matches false stored current strict = true
  ip_matches true none current strict = true
  ip_matches true (some ip) none strict = true
  ip_matches true (some ip) (some ip') strict = validate_ip_binding ip ip' strict

  abbrev both_in_subnet : Option Text → Option Text → Bool
  both_in_subnet none current = false
  both_in_subnet (some ip) none = false
  both_in_subnet (some ip) (some ip') = ips_in_same_subnet ip ip'

  -- the test of the fingerprint, if it is wanted and one is stored
  fingerprint_matches : Bool → Option Text → Text → Option Text → Option Text → Bool → Bool
  unfolding is_minor_ua_change
  fingerprint_matches false stored current ip ip' strict = true
  fingerprint_matches true none current ip ip' strict = true
  fingerprint_matches true (some stored) current ip ip' strict =
      if not (stored == current)
      then (if not strict && both_in_subnet ip ip' then true else is_minor_ua_change stored current)
      else true

  unfoldable pub validate_session_binding :
      Validator → Request → Option Text → Option Text → Bool → Bool × Option FailureReason
  unfolding ip_matches fingerprint_matches
  validate_session_binding v r stored_fingerprint stored_ip strict_mode =
      if not v.require_fingerprint_binding && not v.require_ip_binding
      then (true, none)
      else (let current = generate_session_fingerprint r in
          let ip = given stored_ip in
          let ip' = given r.host in
          if not (ip_matches v.require_ip_binding ip ip' strict_mode)
          then (false, some ip_address_mismatch)
          else (if not (
                fingerprint_matches v.require_fingerprint_binding (given stored_fingerprint) current
                  ip ip' strict_mode)
              then (false, some fingerprint_mismatch)
              else (true, none)))

  -- `SessionBindingMiddleware.validate_request`
  unfoldable pub validate_request : Validator → Request → SessionData → Bool
  unfolding validate_session_binding
  validate_request v r session =
      (validate_session_binding v r session.fingerprint session.ip_address session.strict_mode).0
