-- ===== src/Nostr/Replaceable/Arrival.antt =====
-- replaceable.js: `selectReplaceable` and the order in which relays deliver events.
use mathlib.Core.List.{Permᴰ}
use bitgate.Base.{
  ℕ, ◌≡◌, refl, sym, ap, ◌∙◌, ◌==◌, Bool, ◌&&◌, ◌||◌, Option, none, some, List, [], ◌∷◌, arith,
  filter, ltb, nat_beq, if◌then◌else◌, Bool-cases, inl, inr,
}
use bitgate.Base.Text.{Text, text_eq, text_ltb}
use bitgate.Base.Sort.{ltb_asymm, ltb_trans, ltb_total}
use bitgate.Base.Map.{get}
use bitgate.Nostr.Replaceable.{
  NostrEvent, coordinate_of, is_newer, select_replaceable, latest_step, latest_from, select_latest,
}
use bitgate.Nostr.Replaceable.Latest.{select_replaceable_lem}

-- What identifies a winner: its time and its identifier, which on the network is the hash of the
-- event.
abbrev pub stamp : Option NostrEvent → Option (ℕ × Text)
stamp none = none
stamp (some e) = some (e.created_at, e.id)

abbrev later : Option (ℕ × Text) → ℕ × Text → Option (ℕ × Text)
later none (t, i) = some (t, i)
later (some (u, j)) (t, i) =
    if ltb u t || (nat_beq t u && text_ltb i j) then some (t, i) else some (u, j)

stamp-latest_step :
    (w : Option NostrEvent) (e : NostrEvent)
    → stamp (latest_step w e) ≡ later (stamp w) (e.created_at, e.id)
unfolding latest_step
stamp-latest_step none e = refl
stamp-latest_step (some w) e = elim (Bool-cases (is_newer e w)) [
  | inl n ↦ rw n refl
  | inr n ↦ rw n refl
]

later_swap : (w : Option (ℕ × Text)) (a b : ℕ × Text) → later (later w a) b ≡ later (later w b) a
later_swap none (t, i) (u, j) = ground (arith, ltb_asymm i j, ltb_total i j)
later_swap (some (s, h)) (t, i) (u, j) = ground (
  arith,
  ltb_asymm i j,
  ltb_total i j,
  ltb_asymm i h,
  ltb_total i h,
  ltb_asymm j h,
  ltb_total j h,
  ltb_trans i j h,
  ltb_trans i h j,
  ltb_trans j i h,
  ltb_trans j h i,
  ltb_trans h i j,
  ltb_trans h j i,
)

module _ (p : NostrEvent → Bool) where
  -- One round over the stamps, for the events that pass the test.
  abbrev next : Option (ℕ × Text) → NostrEvent → Option (ℕ × Text)
  next w e = if p e then later w (e.created_at, e.id) else w

  abbrev latest_of : Option (ℕ × Text) → List NostrEvent → Option (ℕ × Text)
  latest_of w [] = w
  latest_of w (e ∷ events) = latest_of (next w e) events

  stamp-latest_from :
      (w : Option NostrEvent) (events : List NostrEvent)
      → stamp (latest_from w (filter p events)) ≡ latest_of (stamp w) events
  unfolding latest_from
  stamp-latest_from w [] = refl
  stamp-latest_from w (e ∷ events) = elim (Bool-cases (p e)) [
    | inl y ↦ rw y (
        stamp-latest_from (latest_step w e) events
        ∙ ap (λ s. latest_of s events) (stamp-latest_step w e))
    | inr n ↦ rw n (stamp-latest_from w events)
  ]

  next_swap : (w : Option (ℕ × Text)) (a b : NostrEvent) → next (next w a) b ≡ next (next w b) a
  next_swap w a b = elim (Bool-cases (p a)) [
    | inr n ↦ rw n refl
    | inl y ↦ elim (Bool-cases (p b)) [
      | inr n ↦ rw (y, n) refl
      | inl z ↦ rw (y, z) (later_swap w (a.created_at, a.id) (b.created_at, b.id))
    ]
  ]

  latest_of-perm :
      (w : Option (ℕ × Text)) {es fs : List NostrEvent}
      → Permᴰ es fs
      → latest_of w es ≡ latest_of w fs
  latest_of-perm w Permᴰ.nil = refl
  latest_of-perm w (Permᴰ.cons {a} {l₂ = ys} e q) =
      latest_of-perm (next w a) q ∙ ap (λ (x : NostrEvent). latest_of (next w x) ys) e
  latest_of-perm w (Permᴰ.swap {a} {b} {l} e q) =
      rw (← e, ← q) (ap (λ s. latest_of s l) (next_swap w a b))
  latest_of-perm w (Permᴰ.trans r q) = latest_of-perm w r ∙ latest_of-perm w q

-- In whatever order the events arrive, every coordinate has a winner of the same time and the same
-- identifier, or has none.
pub select_replaceable-perm :
    (es fs : List NostrEvent) (c : Text)
    → Permᴰ es fs
    → stamp (get (select_replaceable es) c) ≡ stamp (get (select_replaceable fs) c)
select_replaceable-perm es fs c q =
    at_stamps es ∙ latest_of-perm (λ e. coordinate_of e == c) none q ∙ sym (at_stamps fs)
  where
    at_stamps :
        (es : List NostrEvent)
        → stamp (get (select_replaceable es) c) ≡ latest_of (λ e. coordinate_of e == c) none es
    at_stamps es =
        ap stamp (select_replaceable_lem es c)
        ∙ (unfold select_latest in stamp-latest_from (λ e. coordinate_of e == c) none es)
