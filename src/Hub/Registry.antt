-- ===== src/Hub/Registry.antt =====
-- internal/hub/registry.go. SHA-256 is a parameter; a digest is a number. The nodes of a registry
-- are walked in the order of registration where the source walks a Go map.
pub mod Laws
use dev_board.Prelude.{
  ℕ, ◌≡◌, refl, String, len, str_eq, Bool, true, false, not, ◌&&◌, ◌||◌, Option, none, some, List,
  [], ◌∷◌, ◌++◌, ltb, ◌==◌, if◌then◌else◌, Result, ok, err, ◌>>=◌, ◌>>◌, refuse_if,
}
use dev_board.Prelude.Text.{codes, all_codes, is_alnum, trim_space, to_lower, codes_eq}
use dev_board.Prelude.Dict.{Dict, lookup, insert}
use dev_board.Hub.Validation.{valid_node_id}

abbrev pub min_token_length : ℕ
min_token_length = 32

abbrev pub max_token_length : ℕ
max_token_length = 128

abbrev pub max_display_name_bytes : ℕ
max_display_name_bytes = 64

pub record NodeConfig : Type 0 where
  pub node_id : String
  pub display_name : String
  pub accent : String
  pub enabled : Bool
  pub token : String

pub record Node : Type 0 where
  pub id : String
  pub display_name : String
  pub accent : String
  pub enabled : Bool
  pub token_digest : ℕ

pub record Registry : Type 0 where
  pub order : List String
  pub nodes : Dict Node

pub data EntryError : Type 0 where
  invalid_node_id display_name_too_long display_name_control display_name_reserved accent_refused
        token_length token_characters :
      EntryError

pub data RegistryError : Type 0 where
  invalid_entry : String → EntryError → RegistryError
  duplicate_node_id duplicate_node_token : String → RegistryError

-- The loop of `validateDisplayName`, each character tested for both faults in turn.
display_name_codes : List ℕ → Result EntryError (Unit {0})
display_name_codes [] = ok tt
display_name_codes (c ∷ cs) =
    let rest = display_name_codes cs in
    if ltb c 0x20 || c == 0x7f
    then err display_name_control
    else if c == b',' || c == b'='
    then err display_name_reserved
    else rest

unfoldable pub validate_display_name : String → Result EntryError (Unit {0})
unfolding codes display_name_codes
validate_display_name name =
    if ltb max_display_name_bytes (len name)
    then err display_name_too_long
    else display_name_codes (codes name)

abbrev is_accent : List ℕ → Bool
is_accent a =
    codes_eq a (codes "blue")
    || codes_eq a (codes "cyan")
    || codes_eq a (codes "violet")
    || codes_eq a (codes "amber")
    || codes_eq a (codes "green")

unfoldable pub validate_accent : String → Result EntryError (Unit {0})
unfolding codes trim_space to_lower codes_eq
validate_accent s =
    let accent = to_lower (trim_space (codes s)) in
    if codes_eq accent [] then ok tt else if is_accent accent then ok tt else err accent_refused

abbrev pub token_code : ℕ → Bool
token_code c = is_alnum c || c == b'.' || c == b'_' || c == b'~' || c == b'+' || c == b'-'

unfoldable pub validate_registry_entry : NodeConfig → Result EntryError (Unit {0})
validate_registry_entry entry = do
  refuse_if (not (valid_node_id entry.node_id)) invalid_node_id
  validate_display_name entry.display_name
  validate_accent entry.accent
  refuse_if (ltb (len entry.token) min_token_length || ltb max_token_length (len entry.token))
      token_length
  refuse_if (not (all_codes token_code (codes entry.token))) token_characters

abbrev pub wrap_entry : String → Result EntryError (Unit {0}) → Result RegistryError (Unit {0})
wrap_entry id (ok _) = ok tt
wrap_entry id (err e) = err (invalid_entry id e)

unfoldable pub has_digest : ℕ → List ℕ → Bool
has_digest d [] = false
has_digest d (x ∷ xs) = x == d || has_digest d xs

abbrev pub is_present {ℓ} : {A : Type ℓ} → Option A → Bool
is_present none = false
is_present (some _) = true

unfoldable pub registry_lookup : Registry → String → Option Node
registry_lookup r node_id = lookup node_id r.nodes

-- The scan keeps the last match and never leaves early.
unfoldable pub scan : ℕ → Option Node → Dict Node → Option Node
scan digest match [] = match
scan digest match ((_, node) ∷ nodes) =
    scan digest (if digest == node.token_digest then some node else match) nodes

module _ (sha256 : String → ℕ) where
  abbrev pub node_of : NodeConfig → Node
  node_of entry = record {
    id = entry.node_id;
    display_name = entry.display_name;
    accent = entry.accent;
    enabled = entry.enabled;
    token_digest = sha256 entry.token;
  }

  -- One round of the loop of `NewRegistry`: the registry and the digests seen so far.
  unfoldable pub register :
      Registry → List ℕ → NodeConfig → Result RegistryError (Registry × List ℕ)
  register r seen entry = do
    wrap_entry entry.node_id (validate_registry_entry entry)
    refuse_if (is_present (lookup entry.node_id r.nodes)) (duplicate_node_id entry.node_id)
    refuse_if (has_digest (sha256 entry.token) seen) (duplicate_node_token entry.node_id)
    ok (
      record {
        order = r.order ++ entry.node_id ∷ [];
        nodes = insert entry.node_id (node_of entry) r.nodes;
      },
      sha256 entry.token ∷ seen,
    )

  unfoldable pub register_all : Registry → List ℕ → List NodeConfig → Result RegistryError Registry
  register_all r seen [] = ok r
  register_all r seen (entry ∷ entries) = elim (register r seen entry) [
    | err e ↦ err e
    | ok (r', seen') ↦ register_all r' seen' entries
  ]

  unfoldable pub new_registry : List NodeConfig → Result RegistryError Registry
  unfolding register_all
  new_registry entries = register_all (record { order = []; nodes = [] }) [] entries

  unfoldable pub authenticate : Registry → String → Option Node
  authenticate r token =
      if len token == 0 || ltb max_token_length (len token)
      then none
      else scan (sha256 token) none r.nodes
