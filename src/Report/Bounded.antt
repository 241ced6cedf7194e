-- ===== src/Report/Bounded.antt =====
-- `assert_bounded` of adversarial_cognition/report.py, and of the reports of the capability and the
-- provenance benchmark, on reports as they are printed: values of JSON.
use Prim.Native.Char.{code}
use adversarial_cognition.Prelude.{
  ℕ, ◌≤◌, String, ◌≡◌, refl, ◌↔◌, ◌⊎◌, inl, inr, subst, sym, Bool, true, false, not, ◌&&◌, ◌||◌,
  arith, len_text, leb, eqb,
}
use adversarial_cognition.Json.Value.{
  Value, null, truth, integer, real, text, array, object, Values, done, item, Members, end, member,
}

abbrev pub max_report_text : ℕ
max_report_text = 256

-- "\n" in value
unfoldable pub has_newline : String → Bool
has_newline String.[] = false
has_newline (String.◌∷◌ c s) = let rest = has_newline s in eqb (code c) b'\n' || rest

abbrev pub fits : String → Bool
fits s = leb (len_text s) max_report_text && not (has_newline s)

-- Whether `walk` returns. Where it does not, it raises a ValueError.
unfoldable mutual
  unfolding has_newline

  pub walk : Value → Bool
  walk null = true
  walk (truth _) = true
  walk (integer _) = true
  walk (real _) = true
  walk (text s) = fits s
  walk (array vs) = walk_items vs
  walk (object ms) = walk_members ms

  pub walk_items : Values → Bool
  walk_items done = true
  walk_items (item v vs) = walk v && walk_items vs

  pub walk_members : Members → Bool
  walk_members end = true
  walk_members (member k v ms) = fits k && (walk v && walk_members ms)

unfoldable pub assert_bounded : Value → Bool
unfolding walk
assert_bounded report = walk report

-- The text stands somewhere in the value, as a value or as a key.
unfoldable mutual
  pub Occurs : String → Value → Type 0
  Occurs s null = ⊥
  Occurs s (truth _) = ⊥
  Occurs s (integer _) = ⊥
  Occurs s (real _) = ⊥
  Occurs s (text t) = s ≡ t
  Occurs s (array vs) = OccursItems s vs
  Occurs s (object ms) = OccursMembers s ms

  pub OccursItems : String → Values → Type 0
  OccursItems s done = ⊥
  OccursItems s (item v vs) = Occurs s v ⊎ OccursItems s vs

  pub OccursMembers : String → Members → Type 0
  OccursMembers s end = ⊥
  OccursMembers s (member k v ms) = (s ≡ k) ⊎ (Occurs s v ⊎ OccursMembers s ms)

-- At most 256 characters on one line
abbrev pub IsBounded : String → Type 0
IsBounded s = (len_text s ≤ 256) × (has_newline s ≡ false)

fits-IsBounded : (s t : String) → fits t ≡ true → s ≡ t → IsBounded s
fits-IsBounded s t e same = subst IsBounded (sym same) (ground arith, ground arith)

IsBounded-fits : (s : String) → IsBounded s → fits s ≡ true
IsBounded-fits s (short, flat) = ground arith

mutual
  unfolding walk walk_items walk_members Occurs OccursItems OccursMembers

  walk_sound : (v : Value) → walk v ≡ true → (s : String) → Occurs s v → IsBounded s
  walk_sound null e s o = elim o [ ]
  walk_sound (truth _) e s o = elim o [ ]
  walk_sound (integer _) e s o = elim o [ ]
  walk_sound (real _) e s o = elim o [ ]
  walk_sound (text t) e s o = fits-IsBounded s t e o
  walk_sound (array vs) e s o = items_sound vs e s o
  walk_sound (object ms) e s o = members_sound ms e s o

  items_sound : (vs : Values) → walk_items vs ≡ true → (s : String) → OccursItems s vs → IsBounded s
  items_sound done e s o = elim o [ ]
  items_sound (item v vs) e s (inl o) = walk_sound v (ground arith) s o
  items_sound (item v vs) e s (inr o) = items_sound vs (ground arith) s o

  members_sound :
      (ms : Members) → walk_members ms ≡ true → (s : String) → OccursMembers s ms → IsBounded s
  members_sound end e s o = elim o [ ]
  members_sound (member k v ms) e s (inl same) = fits-IsBounded s k (ground arith) same
  members_sound (member k v ms) e s (inr (inl o)) = walk_sound v (ground arith) s o
  members_sound (member k v ms) e s (inr (inr o)) = members_sound ms (ground arith) s o

mutual
  unfolding walk walk_items walk_members Occurs OccursItems OccursMembers

  walk_complete : (v : Value) → ((s : String) → Occurs s v → IsBounded s) → walk v ≡ true
  walk_complete null b = refl
  walk_complete (truth _) b = refl
  walk_complete (integer _) b = refl
  walk_complete (real _) b = refl
  walk_complete (text s) b = IsBounded-fits s (b s refl)
  walk_complete (array vs) b = items_complete vs b
  walk_complete (object ms) b = members_complete ms b

  items_complete :
      (vs : Values) → ((s : String) → OccursItems s vs → IsBounded s) → walk_items vs ≡ true
  items_complete done b = refl
  items_complete (item v vs) b =
      let first = walk_complete v (λ s o. b s (inl o)) in
      let rest = items_complete vs (λ s o. b s (inr o)) in rw (first, rest) refl

  members_complete :
      (ms : Members) → ((s : String) → OccursMembers s ms → IsBounded s) → walk_members ms ≡ true
  members_complete end b = refl
  members_complete (member k v ms) b =
      let key = IsBounded-fits k (b k (inl refl)) in
      let first = walk_complete v (λ s o. b s (inr (inl o))) in
      let rest = members_complete ms (λ s o. b s (inr (inr o))) in rw (key, first, rest) refl

-- A report is let through exactly if every text that stands in it, at any depth, as a value or as a
-- key of a dictionary, has at most 256 characters and no line break.
pub assert_bounded_exact :
    (report : Value)
    → (assert_bounded report ≡ true) ↔ ((s : String) → Occurs s report → IsBounded s)
unfolding assert_bounded
assert_bounded_exact report = (walk_sound report, walk_complete report)
