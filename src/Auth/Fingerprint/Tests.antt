-- ===== src/Auth/Fingerprint/Tests.antt =====
-- A session of one address and requests from its subnet.
use costpilot.Prelude.{◌≡◌, refl, true, false, none, some}
use costpilot.Text.{Text, codes, split, text_eq}
use costpilot.Text.Laws.{text_instance}
use costpilot.Auth.Fingerprint.{
  Request, SessionData, ips_in_same_subnet, validate_request, generate_session_fingerprint,
}

abbrev plain : Text → Text
plain s = s

abbrev session : SessionData
session = record {
  fingerprint = some (codes "f");
  ip_address = some (codes "10.0.0.1");
  strict_mode = false;
}

abbrev roaming : Request
roaming = record {
  host = some (codes "10.0.0.7");
  user_agent = none;
  accept_language = none;
  accept_encoding = none;
  dnt = none;
}

-- another host of the subnet, with another fingerprint
roaming_accepted :
    validate_request plain
      (record { require_ip_binding = true; require_fingerprint_binding = true })
      roaming
      session
    ≡ true
unfolding validate_request ips_in_same_subnet split text_eq generate_session_fingerprint
roaming_accepted = refl
