-- ===== src/Nostr/Replaceable/Latest.antt =====
-- replaceable.js: `selectReplaceable` against `selectLatest`, and behind `verifyEvents`.
use bitgate.Base.{
  ◌≡◌, refl, ap, ◌∙◌, ◌==◌, Bool, true, false, Option, none, some, List, [], ◌∷◌, arith, filter,
  if◌then◌else◌, Bool-cases, any, all, inl, inr,
}
use bitgate.Base.Text.{Text, text_eq, text_beq_iff}
use bitgate.Base.Sort.{ltb_asymm, ltb_trans, ltb_total}
use bitgate.Base.Map.{Map, get, get-put}
use bitgate.Nostr.Replaceable.{
  NostrEvent, coordinate_of, is_newer, select_step, select_from, select_replaceable, latest_step,
  latest_from, select_latest, Verdict, passes, verify_each, verify_events,
}

get-select_step :
    (winners : Map Text NostrEvent) (event : NostrEvent) (c : Text)
    → get (select_step winners event) c
      ≡ (if coordinate_of event == c then latest_step (get winners c) event else get winners c)
unfolding select_step latest_step
get-select_step winners event c = ground (
  arith,
  get-put winners (coordinate_of event) c event,
  text_beq_iff (coordinate_of event) c,
  ap (get winners) {x = coordinate_of event} {y = c},
)

get-select_from :
    (winners : Map Text NostrEvent) (events : List NostrEvent) (c : Text)
    → get (select_from winners events) c
      ≡ latest_from (get winners c) (filter (λ e. coordinate_of e == c) events)
unfolding select_from latest_from
get-select_from winners [] c = refl
get-select_from winners (event ∷ events) c = elim (Bool-cases (coordinate_of event == c)) [
  | inl e ↦ rw e (
      get-select_from (select_step winners event) events c
      ∙ ap (λ w. latest_from w (filter (λ e. coordinate_of e == c) events))
          (get-select_step winners event c ∙ rw e refl))
  | inr e ↦ rw e (
      get-select_from (select_step winners event) events c
      ∙ ap (λ w. latest_from w (filter (λ e. coordinate_of e == c) events))
          (get-select_step winners event c ∙ rw e refl))
]

-- The winner of a coordinate is the latest of the events with this coordinate, and there is none
-- exactly where no event has it: the two selections agree.
pub select_replaceable_lem :
    (events : List NostrEvent) (c : Text)
    → get (select_replaceable events) c ≡ select_latest (filter (λ e. coordinate_of e == c) events)
select_replaceable_lem events c =
    unfold select_replaceable in
    unfold select_latest in get-select_from [] events c ∙ unfold get in refl

is_newer_irrefl : (e : NostrEvent) → is_newer e e ≡ false
is_newer_irrefl e = ground (arith, ltb_asymm e.id e.id)

-- What is not newer than a second event, where that is not newer than a third, is not newer than the
-- third.
is_newer_negtrans :
    (a b c : NostrEvent) → is_newer a b ≡ false → is_newer b c ≡ false → is_newer a c ≡ false
is_newer_negtrans a b c h k = ground (
  arith,
  ltb_total a.id b.id,
  ltb_total b.id c.id,
  ltb_trans a.id c.id b.id,
  ltb_asymm a.id b.id,
  ltb_asymm a.id c.id,
  ltb_trans b.id a.id c.id,
)

is_newer_asymm : (a b : NostrEvent) → is_newer a b ≡ true → is_newer b a ≡ false
is_newer_asymm a b h = ground (arith, ltb_asymm a.id b.id)

abbrev IsLatestOf : NostrEvent → List NostrEvent → Type 0
IsLatestOf v events = any (λ e. is_newer e v) events ≡ false

latest_from-some :
    (w : NostrEvent) (events : List NostrEvent)
    → (v : NostrEvent) × (latest_from (some w) events ≡ some v)
      × (is_newer w v ≡ false)
      × IsLatestOf v events
unfolding latest_from latest_step
latest_from-some w [] = (w, refl, is_newer_irrefl w, refl)
latest_from-some w (e ∷ events) = elim (Bool-cases (is_newer e w)) [
  | inl newer ↦
      let (v, eq, le, rest) = latest_from-some e events in
      (v, rw newer eq, is_newer_negtrans w e v (is_newer_asymm e w newer) le, rw le rest)
  | inr older ↦
      let (v, eq, le, rest) = latest_from-some w events in
      (v, rw older eq, le, rw (is_newer_negtrans e w v older le) rest)
]

abbrev pub holds : (NostrEvent → Bool) → Option NostrEvent → Bool
holds f none = true
holds f (some e) = f e

-- Every list of events that is not empty has a latest event, it is one of them, and none of them is
-- newer.
pub select_latest_lem :
    (e : NostrEvent) (events : List NostrEvent)
    → (v : NostrEvent) × (select_latest (e ∷ events) ≡ some v)
      × (any (λ x. is_newer x v) (e ∷ events) ≡ false)
select_latest_lem e events =
    let (v, eq, le, rest) = latest_from-some e events in (v, unfold select_latest in eq, rw le rest)

all-filter :
    (p f : NostrEvent → Bool) (events : List NostrEvent)
    → all f events ≡ true
    → all f (filter p events) ≡ true
all-filter p f [] h = refl
all-filter p f (e ∷ events) h = ground (arith, all-filter p f events)

-- A test that all events pass is passed by the winner.
latest_from-test :
    (f : NostrEvent → Bool) (w : Option NostrEvent) (events : List NostrEvent)
    → holds f w ≡ true
    → all f events ≡ true
    → holds f (latest_from w events) ≡ true
unfolding latest_from latest_step
latest_from-test f w [] h k = h
latest_from-test f w (e ∷ events) h k =
    latest_from-test f (latest_step w e) events (step w h (ground arith)) (ground arith)
  where
    step :
        (w : Option NostrEvent) → holds f w ≡ true → f e ≡ true → holds f (latest_step w e) ≡ true
    step none h k = k
    step (some w) h k = elim (Bool-cases (is_newer e w)) [ inl n ↦ rw n k | inr n ↦ rw n h ]

-- What an injected verifier rejects, or throws on, never wins: the winner of a coordinate among the
-- verified events is an accepted event.
pub select_replaceable-verify_events :
    (events : List NostrEvent) (verify : NostrEvent → Verdict) (c : Text)
    → holds
        (λ e. passes (verify e))
        (get (select_replaceable (verify_events events (some verify))) c)
      ≡ true
unfolding verify_events
select_replaceable-verify_events events verify c =
    ap (holds (λ e. passes (verify e))) (select_replaceable_lem (verify_each verify events) c)
    ∙ (unfold select_latest in
        latest_from-test (λ e. passes (verify e)) none
          (filter (λ e. coordinate_of e == c) (verify_each verify events)) refl
          (all-filter (λ e. coordinate_of e == c) (λ e. passes (verify e))
            (verify_each verify events) (all_pass events)))
  where
    all_pass :
        (events : List NostrEvent) → all (λ e. passes (verify e)) (verify_each verify events) ≡ true
    all_pass [] = refl
    all_pass (e ∷ events) = elim (Bool-cases (passes (verify e))) [
      | inl y ↦ rw y (rw y (all_pass events))
      | inr n ↦ rw n (all_pass events)
    ]
