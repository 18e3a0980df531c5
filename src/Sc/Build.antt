-- ===== src/Sc/Build.antt =====
-- Chains that `d2sc_sc_merge_entry` builds, against the plain list of their hops.
use d2sc.Prelude.{
  ℕ, zero, suc, ◌+◌, ◌≤◌, ◌<◌, ◌≡◌, refl, ap, some, List, [], ◌∷◌, ◌++◌, ◌∙◌, Bool-cases, subst,
  leb, ◌==◌, if◌then◌else◌, get_elem?, set, length, length-set, length-append, get_elem?-set_self,
  get_elem?-set_ne, Outcome, done, fault, ◌>>=◌, arith, inl, inr,
}
use mathlib.Core.List.{append-nil, append_assoc}
use d2sc.Common.{max_sc_len, act_drop, Mbuf}
use d2sc.Sc.{Sc, ScEntry, ok, bad_index, create, merge_entry, set_entry, next_act, next_dst}

-- A chain stands for a list of hops: its array has its size, and from the second entry on holds
-- the hops.
pub record Holds (sc : Sc) (hops : List ScEntry) : Type 0 where
  pub size : length sc.sc_entry ≡ max_sc_len
  pub len : sc.sc_len ≡ length hops
  pub room : length hops < max_sc_len
  pub entries : (i : ℕ) → i < length hops → get_elem? sc.sc_entry (i + 1) ≡ get_elem? hops i

pub create-Holds : Holds create []
unfolding create
create-Holds = record {
  size = refl;
  len = refl;
  room = omega arith;
  entries = λ i h. absurd (omega arith);
}

get_elem?-snoc :
    {A : Type 0} (xs : List A) (a : A) (i : ℕ)
    → i < length (xs ++ a ∷ [])
    → get_elem? (xs ++ a ∷ []) i ≡ (if i == length xs then some a else get_elem? xs i)
get_elem?-snoc [] a zero h = refl
get_elem?-snoc [] a (suc i) h = absurd (omega arith)
get_elem?-snoc (x ∷ xs) a zero h = ground arith
get_elem?-snoc (x ∷ xs) a (suc i) h = ground (arith, get_elem?-snoc xs a i)

module _ (sc : Sc) (hops : List ScEntry) (e : ScEntry) (h : Holds sc hops) where
  entries-set :
      length hops + 1 < max_sc_len
      → (i : ℕ) → i < length (hops ++ e ∷ [])
      → get_elem? (set sc.sc_entry (sc.sc_len + 1) e) (i + 1) ≡ get_elem? (hops ++ e ∷ []) i
  entries-set lt i l = elim (Bool-cases (i == length hops)) [
    | inl last ↦
        ground
          (arith, get_elem?-snoc hops e i, get_elem?-set_self sc.sc_entry (i + 1) e, h.size, h.len)
    | inr earlier ↦ ground (
      arith,
      get_elem?-snoc hops e i,
      get_elem?-set_ne sc.sc_entry (sc.sc_len + 1) (i + 1) e,
      length-append hops (e ∷ []),
      h.size,
      h.len,
      h.entries i,
    )
  ]

  extend : Sc
  extend = record {
    sc_entry = set sc.sc_entry (sc.sc_len + 1) e;
    sc_len = sc.sc_len + 1;
    ref_cnt = sc.ref_cnt;
  }

  extend-Holds : length hops + 1 < max_sc_len → Holds extend (hops ++ e ∷ [])
  unfolding extend
  extend-Holds lt = record {
    size = length-set sc.sc_entry (sc.sc_len + 1) e ∙ h.size;
    len = omega (arith, h.len, length-append hops (e ∷ []));
    room = omega (arith, length-append hops (e ∷ []));
    entries = entries-set lt;
  }

-- While fewer than five hops are in the chain, `d2sc_sc_merge_entry` succeeds and appends its hop.
pub merge_entry-Holds :
    (sc : Sc) (hops : List ScEntry) (e : ScEntry)
    → Holds sc hops
    → length hops + 1 < max_sc_len
    → (sc' : Sc) × (merge_entry sc e.act e.dst ≡ done (ok, sc')) × Holds sc' (hops ++ e ∷ [])
unfolding merge_entry extend
merge_entry-Holds sc hops e h lt =
    (extend sc hops e h, ground (arith, h.size, h.len), extend-Holds sc hops e h lt)

-- On a chain with an array of six entries and a length of five or six, `d2sc_sc_merge_entry` writes
-- behind the array.
pub merge_entry_overruns :
    (sc : Sc) (act dst : ℕ)
    → length sc.sc_entry ≡ max_sc_len
    → 5 ≤ sc.sc_len
    → sc.sc_len ≤ max_sc_len
    → merge_entry sc act dst ≡ fault
unfolding merge_entry
merge_entry_overruns sc act dst h lo hi = ground arith

-- The chain with one merge call for each hop.
pub build_from : Sc → List ScEntry → Outcome Sc
build_from sc [] = done sc
build_from sc (e ∷ es) = merge_entry sc e.act e.dst >>= λ r. build_from r.1 es

build_from-Holds :
    (es hops : List ScEntry) (sc : Sc)
    → Holds sc hops
    → length (hops ++ es) < max_sc_len
    → (sc' : Sc) × (build_from sc es ≡ done sc') × Holds sc' (hops ++ es)
unfolding build_from
build_from-Holds [] hops sc h lt = (sc, refl, rw append-nil h)
build_from-Holds (e ∷ es) hops sc h lt =
    let (sc1, e1, h1) =
      merge_entry-Holds sc hops e h (omega (arith, length-append hops (e ∷ es))) in
    let shift = append_assoc hops (e ∷ []) es in
    let (sc2, e2, h2) =
      build_from-Holds es (hops ++ e ∷ []) sc1 h1 (omega (arith, ap length shift)) in
    (sc2, rw e1 e2, subst (Holds sc2) shift h2)

-- The hop at a packet's index, or past the end the hop that drops it.
unfoldable pub hop_at : List ScEntry → ℕ → ScEntry
hop_at [] i = record { dst = 0; act = act_drop }
hop_at (e ∷ es) zero = e
hop_at (e ∷ es) (suc i) = hop_at es i

hop_at-of_lt : (es : List ScEntry) (i : ℕ) → i < length es → get_elem? es i ≡ some (hop_at es i)
unfolding hop_at
hop_at-of_lt [] i h = absurd (omega arith)
hop_at-of_lt (e ∷ es) zero h = refl
hop_at-of_lt (e ∷ es) (suc i) h = hop_at-of_lt es i (omega arith)

hop_at-of_ge :
    (es : List ScEntry) (i : ℕ) → length es ≤ i → hop_at es i ≡ record { dst = 0; act = act_drop }
unfolding hop_at
hop_at-of_ge [] i h = refl
hop_at-of_ge (e ∷ es) zero h = absurd (omega arith)
hop_at-of_ge (e ∷ es) (suc i) h = hop_at-of_ge es i (omega arith)

-- On a chain that holds the given hops, the action and the destination that a packet gets are those
-- of the hop at its index, and drop and 0 past the last hop; neither read leaves the array.
pub next-hop :
    (sc : Sc) (hops : List ScEntry) (pkt : Mbuf)
    → Holds sc hops
    → (next_act sc pkt ≡ done (hop_at hops pkt.info.sc_index).act)
      × (next_dst sc pkt ≡ done (hop_at hops pkt.info.sc_index).dst)
unfolding next_act next_dst
next-hop sc hops pkt h = elim (Bool-cases (leb sc.sc_len pkt.info.sc_index)) [
  | inl past ↦ ground (arith, h.len, hop_at-of_ge hops pkt.info.sc_index)
  | inr within ↦
      ground (arith, h.len, h.entries pkt.info.sc_index, hop_at-of_lt hops pkt.info.sc_index)
]

-- Merging at most five hops one by one into a fresh chain succeeds, and the chain then sends a packet
-- to the hop at its index, and drops it past the last.
pub build-next :
    (hops : List ScEntry)
    → length hops ≤ 5
    → (sc : Sc) × (build_from create hops ≡ done sc)
      × ((pkt : Mbuf)
          → (next_act sc pkt ≡ done (hop_at hops pkt.info.sc_index).act)
            × (next_dst sc pkt ≡ done (hop_at hops pkt.info.sc_index).dst))
build-next hops lt =
    let (sc, e, h) = build_from-Holds hops [] create create-Holds (omega arith) in
    (sc, e, λ pkt. next-hop sc hops pkt h)

module _ (sc : Sc) (hops : List ScEntry) (i : ℕ) (e : ScEntry) (h : Holds sc hops)
    (lt : i < length hops) where
  entries-replaced :
      (j : ℕ)
      → j < length (set hops i e)
      → get_elem? (set sc.sc_entry (i + 1) e) (j + 1) ≡ get_elem? (set hops i e) j
  entries-replaced j l = elim (Bool-cases (i == j)) [
    | inl same ↦ ground (
      arith,
      get_elem?-set_self sc.sc_entry (j + 1) e,
      get_elem?-set_self hops j e,
      h.size,
      h.room,
    )
    | inr other ↦ ground (
      arith,
      get_elem?-set_ne sc.sc_entry (i + 1) (j + 1) e,
      get_elem?-set_ne hops i j e,
      length-set hops i e,
      h.entries j,
    )
  ]

  replaced-Holds : Holds (record sc { sc_entry = set sc.sc_entry (i + 1) e }) (set hops i e)
  replaced-Holds = record {
    size = length-set sc.sc_entry (i + 1) e ∙ h.size;
    len = omega (arith, h.len, length-set hops i e);
    room = omega (arith, length-set hops i e);
    entries = entries-replaced;
  }

-- On a chain that holds the given hops, `d2sc_sc_set_entry` at an index from 1 to the length
-- replaces that hop, so that the chain holds the changed hops, and reports success; past the length
-- it reports an error and changes nothing.
pub set_entry_lem :
    (sc : Sc) (hops : List ScEntry) (i act dst : ℕ)
    → Holds sc hops
    → (i < length hops
        → (sc' : Sc) × (set_entry sc (i + 1) act dst ≡ done (ok, sc'))
          × Holds sc' (set hops i (record { dst = dst; act = act })))
      × (length hops ≤ i → set_entry sc (i + 1) act dst ≡ done (bad_index, sc))
unfolding set_entry
set_entry_lem sc hops i act dst h = (
  λ lt. (changed, ground (arith, h.size, h.len), replaced-Holds sc hops i e h lt),
  λ ge. ground (arith, h.len),
)
  where
    e : ScEntry
    e = record { dst = dst; act = act }

    changed : Sc
    changed = record sc { sc_entry = set sc.sc_entry (i + 1) e }
