-- ===== src/StringInternalizer/Tests.antt =====
-- StringInternalizer (include/env/stringInternalizer.h) on concrete strings.
use columbo.Base.{◌≡◌, ◌↔◌, [], ◌∷◌, some}
use columbo.StringInternalizer.{Text, deref, internalize}
use columbo.StringInternalizer.Addresses.{internalize_all, internalize_addresses}

abbrev read_call : Text
read_call = b'r' ∷ b'x' ∷ []

abbrev send_call : Text
send_call = b't' ∷ b'x' ∷ []

internalize_addresses_example :
    let first = internalize [] read_call in
    let second = internalize (internalize_all first.0 (send_call ∷ [])) read_call in
    (deref second.0 first.1 ≡ some read_call) × ((first.1 ≡ second.1) ↔ (read_call ≡ read_call))
internalize_addresses_example = internalize_addresses [] (send_call ∷ []) read_call read_call tt
