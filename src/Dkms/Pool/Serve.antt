-- ===== src/Dkms/Pool/Serve.antt =====
-- On `enc_pop_pref` of dkms/src/state/pool.rs and `resolve_grade` of common/src/security.rs.
use dkms.Prelude.{Bool, true, false, Option, none, some, List, [], ◌∷◌}
use dkms.Dkms.Security.{KeyGrade, GradeResolution, serve, unsatisfiable}
use dkms.Dkms.Buffer.{TransportKey}
use dkms.Dkms.Pool.{PeerBuffers, enc}

has_key : List TransportKey → Bool
has_key [] = false
has_key (k ∷ ks) = true

-- Does the peer have a key of the grade?
pub has_stock : PeerBuffers → KeyGrade → Bool
has_stock p g = has_key (enc p g).inner

pub served : Option (KeyGrade × TransportKey) → GradeResolution
served none = unsatisfiable
served (some (g, k)) = serve g
