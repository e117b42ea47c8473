-- ===== src/Service/Processes.antt =====
-- UsbWatchdog::killExistingSlcand: which processes it kills.
use ksg_canbus_rpi_sniffer.Prelude.{
  ℕ, ◌≡◌, ◌≢◌, refl, ap, sym, ◌∙◌, Bool, true, false, Bool-cases, inl, inr, not, ◌&&◌, List, [],
  ◌∷◌, ◌++◌, ◌==◌, ==_iff, if◌then◌else◌, take, arith,
}
use ksg_canbus_rpi_sniffer.Text.{str_eq, str_eq_sound, codes}
use ksg_canbus_rpi_sniffer.Params.Store.{cons_first}
use ksg_canbus_rpi_sniffer.Params.File.{digits, is_digit}

-- A directory of /proc: its name, and the bytes of its cmdline as far as one read of 1023 bytes gives
-- them; a file that cannot be read is an empty one.
pub record Process : Type 0 where
  pub name : List ℕ
  pub cmdline : List ℕ

-- The strings that the loop over the buffer walks through.
unfoldable pub arguments : List ℕ → List (List ℕ)
unfolding cons_first
arguments [] = []
arguments (c ∷ s) = if c == 0 then [] ∷ arguments s else cons_first c (arguments s)

-- strstr(s, pattern) != NULL
unfoldable pub starts_with : List ℕ → List ℕ → Bool
starts_with s [] = true
starts_with [] (c ∷ pattern) = false
starts_with (b ∷ s) (c ∷ pattern) = b == c && starts_with s pattern

unfoldable pub strstr : List ℕ → List ℕ → Bool
unfolding starts_with
strstr [] pattern = starts_with [] pattern
strstr (b ∷ s) pattern = if starts_with (b ∷ s) pattern then true else strstr s pattern

abbrev pub slcand : List ℕ
slcand = codes "slcand"

-- The two flags after the loop over the arguments.
unfoldable pub any_slcand : List (List ℕ) → Bool
any_slcand [] = false
any_slcand (argument ∷ rest) = if strstr argument slcand then true else any_slcand rest

unfoldable pub any_interface : List ℕ → List (List ℕ) → Bool
any_interface interface [] = false
any_interface interface (argument ∷ rest) =
    if str_eq argument interface then true else any_interface interface rest

unfoldable pub first_is_digit : List ℕ → Bool
first_is_digit [] = false
first_is_digit (c ∷ s) = is_digit c

-- atoi of a name that starts with a digit.
unfoldable pub process_id : Process → ℕ
process_id p = digits 0 p.name

unfoldable pub is_victim : ℕ → List ℕ → Process → Bool
is_victim own interface p =
    first_is_digit p.name
    && (any_slcand (arguments (take 1023 p.cmdline))
        && (any_interface interface (arguments (take 1023 p.cmdline)) && not (process_id p == own)))

-- The ids that get SIGKILL, in the order of the directory.
unfoldable pub kill_existing : ℕ → List ℕ → List Process → List ℕ
kill_existing own interface [] = []
kill_existing own interface (p ∷ rest) =
    if is_victim own interface p
    then process_id p ∷ kill_existing own interface rest
    else kill_existing own interface rest

-- Some argument is exactly `interface`, and some argument contains `slcand`.
pub data HasArgument (P : List ℕ → Type 0) : List (List ℕ) → Type 0 where
  here : {argument : List ℕ} {rest : List (List ℕ)} → P argument → HasArgument P (argument ∷ rest)
  later :
      {argument : List ℕ} {rest : List (List ℕ)}
      → HasArgument P rest
      → HasArgument P (argument ∷ rest)

abbrev pub Contains : List ℕ → List ℕ → Type 0
Contains pattern s = (before behind : List ℕ) × (s ≡ before ++ (pattern ++ behind))

pub data Among (p : Process) : List Process → Type 0 where
  first : {rest : List Process} → Among p (p ∷ rest)
  next : {q : Process} {rest : List Process} → Among p rest → Among p (q ∷ rest)

starts_with_sound :
    (s pattern : List ℕ)
    → starts_with s pattern ≡ true
    → (behind : List ℕ) × (s ≡ pattern ++ behind)
unfolding starts_with
starts_with_sound s [] h = (s, refl)
starts_with_sound [] (c ∷ pattern) h = absurd (cc h)
starts_with_sound (b ∷ s) (c ∷ pattern) h = elim (Bool-cases (b == c)) [
  | inl same ↦
      let matched : starts_with s pattern ≡ true = ground arith in
      let (behind, e) = starts_with_sound s pattern matched in (behind, cc ((==_iff b c).0 same, e))
  | inr other ↦ absurd (cc (ap (λ t. t && starts_with s pattern) (sym other) ∙ h))
]

strstr_sound : (s pattern : List ℕ) → strstr s pattern ≡ true → Contains pattern s
unfolding strstr
strstr_sound [] pattern h = let (behind, e) = starts_with_sound [] pattern h in ([], behind, e)
strstr_sound (b ∷ s) pattern h = elim (Bool-cases (starts_with (b ∷ s) pattern)) [
  | inl now ↦ let (behind, e) = starts_with_sound (b ∷ s) pattern now in ([], behind, e)
  | inr not_now ↦
      let further : strstr s pattern ≡ true = ground arith in
      let (before, behind, e) = strstr_sound s pattern further in (b ∷ before, behind, ap (◌∷◌ b) e)
]

any_slcand_sound : (all : List (List ℕ)) → any_slcand all ≡ true → HasArgument (Contains slcand) all
unfolding any_slcand
any_slcand_sound [] h = absurd (cc h)
any_slcand_sound (argument ∷ rest) h = elim (Bool-cases (strstr argument slcand)) [
  | inl found ↦ here (strstr_sound argument slcand found)
  | inr other ↦
      let further : any_slcand rest ≡ true = ground arith in later (any_slcand_sound rest further)
]

any_interface_sound :
    (interface : List ℕ) (all : List (List ℕ))
    → any_interface interface all ≡ true
    → HasArgument (λ argument. argument ≡ interface) all
unfolding any_interface
any_interface_sound interface [] h = absurd (cc h)
any_interface_sound interface (argument ∷ rest) h = elim (Bool-cases (str_eq argument interface)) [
  | inl found ↦ here (str_eq_sound argument interface found)
  | inr other ↦
      let further : any_interface interface rest ≡ true = ground arith in
      later (any_interface_sound interface rest further)
]

-- A process that the watchdog of this interface may kill.
pub record IsSlcandOf (own : ℕ) (interface : List ℕ) (p : Process) : Type 0 where
  pub not_own : process_id p ≢ own
  pub runs_slcand : HasArgument (Contains slcand) (arguments (take 1023 p.cmdline))
  pub names_interface :
      HasArgument (λ argument. argument ≡ interface) (arguments (take 1023 p.cmdline))

is_victim_sound :
    (own : ℕ) (interface : List ℕ) (p : Process)
    → is_victim own interface p ≡ true
    → IsSlcandOf own interface p
unfolding is_victim
is_victim_sound own interface p h =
    let program : any_slcand (arguments (take 1023 p.cmdline)) ≡ true = ground arith in
    let named : any_interface interface (arguments (take 1023 p.cmdline)) ≡ true = ground arith in
    record {
      not_own = λ e. ground arith;
      runs_slcand = any_slcand_sound _ program;
      names_interface = any_interface_sound interface _ named;
    }

-- Each id in the list is that of a process of the directory that the predicate holds of.
abbrev pub AllFrom : (Process → Type 0) → List Process → List ℕ → Type 0
AllFrom P processes [] = Unit
AllFrom P processes (id ∷ rest) =
    ((p : Process) × Among p processes × (process_id p ≡ id) × P p) × AllFrom P processes rest

AllFrom-next :
    (P : Process → Type 0) (q : Process) (processes : List Process) (ids : List ℕ)
    → AllFrom P processes ids
    → AllFrom P (q ∷ processes) ids
AllFrom-next P q processes [] h = tt
AllFrom-next P q processes (id ∷ rest) ((p, m, e, h), all) =
    ((p, next m, e, h), AllFrom-next P q processes rest all)

-- Every process that killExistingSlcand kills is one of the directory, is not the sniffer itself, has
-- an argument that contains "slcand", and has an argument that is exactly the watchdog's interface.
pub kill_existing-IsSlcandOf :
    (own : ℕ) (interface : List ℕ) (processes : List Process)
    → AllFrom (IsSlcandOf own interface) processes (kill_existing own interface processes)
unfolding kill_existing
kill_existing-IsSlcandOf own interface [] = tt
kill_existing-IsSlcandOf own interface (p ∷ rest) =
    let others =
      AllFrom-next (IsSlcandOf own interface) p rest (kill_existing own interface rest)
        (kill_existing-IsSlcandOf own interface rest) in
    elim (Bool-cases (is_victim own interface p)) [
      | inl yes_victim ↦
          rw yes_victim ((p, first, refl, is_victim_sound own interface p yes_victim), others)
      | inr other ↦ rw other others
    ]
