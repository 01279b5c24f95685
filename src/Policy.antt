-- ===== src/Policy.antt =====
-- packages/icil-policy/src/icil_policy/serve.py: what the server calls of a competitor's code, and its checks
-- of the policy and of an action. The competitor's code, numpy and the texts of values are parameters.
pub mod Serve
pub mod Loop
pub mod Call
pub mod Client
mod Replies
mod Acts
mod Talk
mod Answers
mod Unbuilt
mod Examples
use icil_competition_orchest.Prelude.{
  ℕ, String, Bool, true, false, not, ◌&&◌, ◌||◌, List, [], ◌∷◌, ◌++◌, Option, none, some, ◌==◌, any,
  if◌then◌else◌, length, concat, Result, ok, err,
}
use icil_competition_orchest.Wire.{Json, Members, WireError, Received}
use icil_competition_orchest.Wire.Encode.{one_of, NdArray, Arrays, value_of}

abbrev pub action_types : List String
action_types = "qpos" ∷ "ee" ∷ []

-- What a call of the competitor's code comes to: its value, an exception by its type and text, an exception
-- that is not answered, or the client's leaving while it runs, which ends the process.
pub data Called (A : Type 0) : Type 0 where
  returned : A → Called A
  raised : String → String → Called A
  interrupted deserted : Called A

-- What `act` returned: a mapping, or a value of another type by the type's name.
pub data Acted : Type 0 where
  mapping : Arrays → Acted
  other_type : String → Acted

-- A policy as constructed: its state, its action type (`none` where that is no text) with its text, and which
-- methods it has.
pub record Instance (P : Type 0) : Type 0 where
  pub state : P
  pub declared : Option String
  pub declared_text : String
  pub has_method : String → Bool

-- The competitor's code: importing and constructing it (`none` where the module lacks the attribute), and its
-- methods, which may change its state whatever they come to. `close` may be missing.
pub record Code (P : Type 0) : Type 0 where
  pub construct : Called (Option (Instance P))
  pub reset : P → Json → Called Unit × P
  pub set_demonstration : P → List Received → Members → Called Unit × P
  pub act : P → List Received → Called Acted × P
  pub close : Option (P → Called Unit × P)

pub record Manifest : Type 0 where
  pub policy : String
  pub module_name : String
  pub attribute : String

-- Python's texts and truth of values, and numpy's shape of a value or what it raises.
pub record Texts : Type 0 where
  pub repr : Option Json → String
  pub repr_text : String → String
  pub type_name : Json → String
  pub str_of : Json → String
  pub truth : Json → Bool
  pub names_in : Arrays → String
  pub shape_text : List ℕ → String
  pub why : WireError → String
  pub np_shape : Option NdArray → Called (List ℕ)

-- numpy's table of element types, and what `json` writes and reads.
pub record Format : Type 0 where
  pub itemsize : String → Option ℕ
  pub dumps : Json → Option (List ℕ)
  pub loads : List ℕ → Option Json

-- What a server is started with, and what its process has.
pub record Serving (P : Type 0) : Type 0 where
  pub format : Format
  pub texts : Texts
  pub manifest : Manifest
  pub code : Code P

-- `', '.join(texts)`, for any separator
unfoldable pub separated : String → List String → String
separated sep [] = ""
separated sep (s ∷ []) = s
separated sep (s ∷ t ∷ rest) = concat (s ∷ sep ∷ separated sep (t ∷ rest) ∷ [])

unfoldable pub missing_methods : (String → Bool) → List String → List String
missing_methods has [] = []
missing_methods has (m ∷ ms) =
    if has m
    then missing_methods has ms
    else concat ("it has no " ∷ m ∷ "() method" ∷ []) ∷ missing_methods has ms

unfoldable pub is_declared : Option String → Bool
unfolding one_of
is_declared none = false
is_declared (some a) = one_of a action_types

unfoldable pub problems : {P : Type 0} → Instance P → List String
unfolding is_declared missing_methods separated
problems i =
    (if is_declared i.declared
      then []
      else (concat (
            "action_type is "
            ∷ i.declared_text
            ∷ ", not one of "
            ∷ separated ", " action_types
            ∷ [])
          ∷ []))
    ++ missing_methods i.has_method ("reset" ∷ "set_demonstration" ∷ "act" ∷ [])

-- `build_policy`: the policy and its action type.
unfoldable pub build_policy : {P : Type 0} → Texts → Manifest → Code P → Called (Instance P)
unfolding problems separated
build_policy texts m code = elim code.construct [
  | raised kind text ↦ raised kind text
  | interrupted ↦ interrupted
  | deserted ↦ deserted
  | returned none ↦ raised "AttributeError" (
      concat (
        "module "
        ∷ texts.repr_text m.module_name
        ∷ " has no attribute "
        ∷ texts.repr_text m.attribute
        ∷ []))
  | returned (some i) ↦ elim (problems i) [
    | [] ↦ returned i
    | p ∷ ps ↦
        raised "TypeError" (concat (m.policy ∷ " is not a Policy: " ∷ separated "; " (p ∷ ps) ∷ []))
  ]
]

-- One or two dimensions, none of them zero.
unfoldable pub is_action : List ℕ → Bool
is_action shape = (length shape == 1 || length shape == 2) && not (any (λ d. d == 0) shape)

-- `checked_action`
unfoldable pub checked_action : Texts → Acted → Called Arrays
checked_action texts (other_type name) =
    raised "TypeError" (concat ("act() returned " ∷ name ∷ ", not a mapping of named arrays" ∷ []))
checked_action texts (mapping arrays) = elim (value_of "action" arrays) [
  | none ↦
      raised "ValueError"
        (concat ("act() returned no 'action', only " ∷ texts.names_in arrays ∷ []))
  | some value ↦ elim (texts.np_shape value) [
    | raised kind text ↦ raised kind text
    | interrupted ↦ interrupted
    | deserted ↦ deserted
    | returned shape ↦
        if is_action shape
        then returned arrays
        else raised "ValueError" (
            concat (
              "act() returned an 'action' of shape "
              ∷ texts.shape_text shape
              ∷ ", not (A,) or (H, A)"
              ∷ []))
  ]
]
