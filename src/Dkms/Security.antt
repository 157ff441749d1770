-- ===== src/Dkms/Security.antt =====
-- common/src/security.rs: the grades of keys and the levels that requests ask for.
use dkms.Prelude.{ℕ, String, Bool, Option, none, some, List, [], ◌∷◌, if◌then◌else◌}
use dkms.Prelude.Assoc.{◌==◌, string_keys}

pub data KeyGrade : Type 0 where
  qkd pqc : KeyGrade

pub data SecurityLevel : Type 0 where
  strict_qkd qkd_prefer no_worry : SecurityLevel

pub data GradeResolution : Type 0 where
  serve : KeyGrade → GradeResolution
  unsatisfiable : GradeResolution

unfoldable pub grade_str : KeyGrade → String
grade_str qkd = "qkd"
grade_str pqc = "pqc"

unfoldable pub wire_byte : KeyGrade → ℕ
wire_byte qkd = 0
wire_byte pqc = 1

unfoldable pub as_str : SecurityLevel → String
as_str strict_qkd = "strict_qkd"
as_str qkd_prefer = "qkd_prefer"
as_str no_worry = "no_worry"

unfoldable pub from_token : String → Option SecurityLevel
from_token s =
    if s == "strict_qkd"
    then some strict_qkd
    else if s == "qkd_prefer"
    then some qkd_prefer
    else if s == "no_worry"
    then some no_worry
    else none

unfoldable pub serve_pref : SecurityLevel → List KeyGrade
serve_pref strict_qkd = qkd ∷ []
serve_pref qkd_prefer = qkd ∷ pqc ∷ []
serve_pref no_worry = pqc ∷ qkd ∷ []

unfoldable pub resolve_grade : SecurityLevel → Bool → Bool → GradeResolution
resolve_grade strict_qkd qkd_available pqc_available =
    if qkd_available then serve qkd else unsatisfiable
resolve_grade qkd_prefer qkd_available pqc_available =
    if qkd_available then serve qkd else if pqc_available then serve pqc else unsatisfiable
resolve_grade no_worry qkd_available pqc_available =
    if pqc_available then serve pqc else if qkd_available then serve qkd else unsatisfiable
