-- ===== src/Roles.antt =====
-- shared/agentRole.ts: the class of a role, its specialties, and how well two roles match.
-- `String.prototype.toLowerCase` is a parameter; its results are split at everything but the ASCII
-- letters and digits, as the source's pattern does.
pub mod Label
use charterion.Prelude.{
  ℕ, zero, suc, ◌+◌, ◌/◌, ◌%◌, Text, codes, Option, none, some, List, [], ◌∷◌, ◌++◌, Bool, true,
  false, not, ◌||◌, ◌&&◌, if◌then◌else◌, leb, ltb, ◌==◌, same, trim, is_space, truthy, is_some,
  includes, text_eq, filter, length, map, all,
}
use charterion.Protocol.Block.{index_of}

pub data AgentRoleClass : Type 0 where
  supervisor architect implementer tester integrator researcher operator general : AgentRoleClass

abbrev pub same_class : AgentRoleClass → AgentRoleClass → Bool
same_class supervisor supervisor = true
same_class architect architect = true
same_class implementer implementer = true
same_class tester tester = true
same_class integrator integrator = true
same_class researcher researcher = true
same_class operator operator = true
same_class general general = true
same_class _ _ = false

abbrev is_digit : ℕ → Bool
is_digit c = leb 48 c && leb c 57

abbrev is_alphanumeric : ℕ → Bool
is_alphanumeric c = is_digit c || (leb 97 c && leb c 122)

-- A token, if it is not empty, before the others.
abbrev keep_token : Text → List Text → List Text
keep_token t ts = if truthy t then t ∷ ts else ts

-- The pieces of a text between other characters: the open one and the ones after it.
unfoldable pub pieces : Text → Text × List Text
pieces [] = ([], [])
pieces (c ∷ s) =
    let (open_piece, rest) = pieces s in
    if is_alphanumeric c then (c ∷ open_piece, rest) else ([], keep_token open_piece rest)

unfoldable pub split_tokens : Text → List Text
split_tokens s = let (first, rest) = pieces s in keep_token first rest

-- `text.includes(part)`.
abbrev pub contains : Text → Text → Bool
contains text part = is_some (index_of part text)

-- `replace(/\s+/g, ' ')`.
unfoldable pub collapse_spaces : Bool → Text → Text
collapse_spaces after_space [] = []
collapse_spaces after_space (c ∷ s) =
    let rest = collapse_spaces (is_space c) s in
    if is_space c then (if after_space then rest else 32 ∷ rest) else c ∷ rest

abbrev role_noise : List Text
role_noise =
    codes "gam"
    ∷ codes "charterion"
    ∷ codes "recursive"
    ∷ codes "parallel"
    ∷ codes "par"
    ∷ codes "wave"
    ∷ codes "selfhost"
    ∷ codes "selfhosting"
    ∷ codes "impl"
    ∷ codes "implementer"
    ∷ codes "worker"
    ∷ codes "developer"
    ∷ codes "engineer"
    ∷ codes "supervisor"
    ∷ codes "reviewer"
    ∷ codes "architect"
    ∷ codes "tester"
    ∷ codes "qa"
    ∷ codes "integrator"
    ∷ codes "researcher"
    ∷ codes "research"
    ∷ codes "operator"
    ∷ codes "ops"
    ∷ codes "agent"
    ∷ codes "role"
    ∷ codes "e2e"
    ∷ codes "followup"
    ∷ []

-- A prefix with nothing but digits after it.
unfoldable pub numbered : Text → Text → Bool
numbered [] s = all (λ c. is_digit c) s
numbered (p ∷ ps) [] = false
numbered (p ∷ ps) (c ∷ s) = p == c && numbered ps s

-- The patterns of a number, a wave, a version and a role with a number.
unfoldable pub is_numbering : Text → Bool
is_numbering t =
    (numbered [] t && truthy t)
    || (numbered (codes "w") t && not (same t (codes "w")))
    || (numbered (codes "v") t && not (same t (codes "v")))
    || numbered (codes "role") t

-- The decimal digits of a number below the tenth power that the fuel counts.
unfoldable pub decimal : ℕ → ℕ → Text
decimal zero n = []
decimal (suc fuel) n =
    let front = decimal fuel (n / 10) in
    if ltb n 10 then (48 + n) ∷ [] else front ++ ((48 + n % 10) ∷ [])

abbrev pub role_label : AgentRoleClass → Text → Text
role_label supervisor role = codes "SUPERVISOR"
role_label architect role = codes "ARCHITECT"
role_label implementer role = codes "IMPLEMENTER"
role_label tester role = codes "TESTER"
role_label integrator role = codes "INTEGRATOR"
role_label researcher role = codes "RESEARCHER"
role_label operator role = codes "OPERATOR"
role_label general role = trim role

module _ (to_lower : Text → Text) where
  unfoldable pub role_tokens : Text → List Text
  role_tokens role = split_tokens (to_lower (trim role))

  unfoldable pub agent_role_class : Text → AgentRoleClass
  agent_role_class role =
      let normalized = to_lower (trim role) in
      let tokens = role_tokens role in
      if contains normalized (codes "supervisor") || contains normalized (codes "reviewer")
      then supervisor
      else if contains normalized (codes "architect")
      then architect
      else if contains normalized (codes "tester") || includes tokens (codes "qa")
      then tester
      else if contains normalized (codes "integrator")
      then integrator
      else if includes tokens (codes "impl")
          || includes tokens (codes "worker")
          || contains normalized (codes "implementer")
          || contains normalized (codes "developer")
          || contains normalized (codes "engineer")
      then implementer
      else if contains normalized (codes "research")
      then researcher
      else if contains normalized (codes "operator") || includes tokens (codes "ops")
      then operator
      else general

  unfoldable pub normalized_role : Text → Text
  normalized_role role = to_lower (collapse_spaces false (trim role))

  unfoldable pub role_specialties : Text → List Text
  role_specialties role =
      filter (λ token. not (includes role_noise token) && not (is_numbering token))
        (role_tokens role)

  -- The text `class:…` or `role:…`, as the pair that it spells.
  unfoldable pub role_affinity_key : Text → AgentRoleClass × Text
  role_affinity_key role =
      let role_class = agent_role_class role in
      (role_class, if same_class role_class general then normalized_role role else [])

  -- The score of two roles of one class.
  unfoldable pub specialty_score : List Text → List Text → ℕ
  specialty_score [] agent = 600
  specialty_score (r ∷ rs) [] = 600
  specialty_score (r ∷ rs) (a ∷ as') =
      let overlap = length (filter (λ token. includes (a ∷ as') token) (r ∷ rs)) in
      if ltb 0 overlap then 800 + overlap else 500

  unfoldable pub role_match_score : Text → Text → Option ℕ
  role_match_score requested agent =
      let requested_class = agent_role_class requested in
      if same (normalized_role requested) (normalized_role agent)
      then some 1000
      else if same_class requested_class general
          || not (same_class requested_class (agent_role_class agent))
      then none
      else some (specialty_score (role_specialties requested) (role_specialties agent))

  unfoldable pub roles_are_compatible : Text → Text → Bool
  roles_are_compatible requested agent = is_some (role_match_score requested agent)

  -- The loop over the numbers from `index` on, as many as the fuel.
  unfoldable pub free_label : Text → List Text → ℕ → ℕ → Option Text
  free_label base occupied index zero = none
  free_label base occupied index (suc fuel) =
      let candidate = base ++ codes "_" ++ decimal 4 index in
      let rest = free_label base occupied (index + 1) fuel in
      if not (includes occupied (normalized_role candidate)) then some candidate else rest

  -- `none` is the error of a role with no free number below ten thousand.
  unfoldable pub stable_role_label : Text → List Text → Option Text
  stable_role_label requested occupied_roles =
      let base = role_label (agent_role_class requested) requested in
      let occupied = map normalized_role occupied_roles in
      if not (includes occupied (normalized_role base))
      then some base
      else free_label base occupied 2 9998
