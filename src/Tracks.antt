-- ===== src/Tracks.antt =====
-- adversarial_cognition/tracks.py: which systems of a report are compared with one another.
mod Examples
use mathlib.Core.List.{append-nil, append_assoc}
use adversarial_cognition.Prelude.{
  String, ◌≡◌, refl, subst, ◌==◌, Bool, true, false, ◌↔◌, Option, none, some, List, [], ◌∷◌, ◌++◌,
  Dict, get, arith, ◌⊎◌, if◌then◌else◌, eq_iff, ◌||◌, ◌&&◌, Bool-cases, inl, inr,
}

abbrev pub memory_store : String
memory_store = "memory-store"

abbrev pub agent_memory : String
agent_memory = "agent-memory"

abbrev pub interface_track : Dict String
interface_track = ("direct-api", memory_store) ∷ ("agent-loop", agent_memory) ∷ []

abbrev pub or_else : Option String → String → String
or_else none fallback = fallback
or_else (some v) fallback = v

unfoldable pub track_for_interface : String → String
unfolding get
track_for_interface interface = or_else (get interface_track interface) memory_store

-- An entry of the report: its status and its interface, where it has one
pub record Entry : Type 0 where
  pub name : String
  pub status : String
  pub interface : Option String

-- The dictionary that `group_by_track` returns
pub record Groups : Type 0 where
  pub stores : List String
  pub agents : List String

abbrev pub in_track : Entry → String → Bool
in_track e track =
    e.status == "executed" && track_for_interface (or_else e.interface "direct-api") == track

abbrev add_to : Entry → Groups → Groups
add_to e g =
    if track_for_interface (or_else e.interface "direct-api") == agent_memory
    then record g { agents = g.agents ++ e.name ∷ [] }
    else record g { stores = g.stores ++ e.name ∷ [] }

unfoldable pub group_from : Groups → List Entry → Groups
unfolding track_for_interface
group_from g [] = g
group_from g (e ∷ es) = group_from (if e.status == "executed" then add_to e g else g) es

unfoldable pub group_by_track : List Entry → Groups
unfolding group_from
group_by_track = group_from (record { stores = []; agents = [] })

-- The names of the entries of a track
unfoldable pub names_in : String → List Entry → List String
unfolding track_for_interface
names_in track [] = []
names_in track (e ∷ es) =
    let rest = names_in track es in if in_track e track then e.name ∷ rest else rest

-- An interface has one of the two tracks.
track-cases :
    (interface : String)
    → ((track_for_interface interface == memory_store) ≡ true
        × ((track_for_interface interface == agent_memory) ≡ false))
      ⊎ ((track_for_interface interface == memory_store) ≡ false
          × ((track_for_interface interface == agent_memory) ≡ true))
unfolding track_for_interface get
track-cases interface = elim (Bool-cases ("direct-api" == interface)) [
  | inl direct ↦ inl (rw direct (refl, refl))
  | inr other ↦ elim (Bool-cases ("agent-loop" == interface)) [
    | inl loop ↦ inr (rw (other, loop) (refl, refl))
    | inr unknown ↦ inl (rw (other, unknown) (refl, refl))
  ]
]

group_from-names :
    (g : Groups) (es : List Entry)
    → group_from g es ≡ record {
      stores = g.stores ++ names_in memory_store es;
      agents = g.agents ++ names_in agent_memory es;
    }
unfolding group_from names_in
group_from-names g [] = (rw (append-nil g.stores, append-nil g.agents) refl)
group_from-names g (e ∷ es) = elim (Bool-cases (e.status == "executed")) [
  | inl ran ↦ elim (track-cases (or_else e.interface "direct-api")) [
    | inl (store, agent) ↦
        let rest = group_from-names (record g { stores = g.stores ++ e.name ∷ [] }) es in
        rw (ran, store, agent)
          (rw (append_assoc g.stores (e.name ∷ []) (names_in memory_store es)) at rest)
    | inr (store, agent) ↦
        let rest = group_from-names (record g { agents = g.agents ++ e.name ∷ [] }) es in
        rw (ran, store, agent)
          (rw (append_assoc g.agents (e.name ∷ []) (names_in agent_memory es)) at rest)
  ]
  | inr failed ↦ rw failed (group_from-names g es)
]

-- Each executed system of a report stands in exactly one of the two tracks, in the order of the
-- report: with the agents if its interface has that track, and with the stores otherwise. The
-- others stand in none.
pub group_by_track_exact :
    (es : List Entry)
    → group_by_track es
      ≡ record { stores = names_in memory_store es; agents = names_in agent_memory es }
unfolding group_by_track
group_by_track_exact = group_from-names (record { stores = []; agents = [] })
