-- ===== src/Tests/Relays.antt =====
-- Replaceable events at concrete inputs.
use mathlib.Core.List.{Permᴰ}
use bitgate.Base.{ℕ, ◌≡◌, refl, ◌==◌, true, false, none, some, [], ◌∷◌, filter}
use bitgate.Base.Text.{Text, text_eq, codes}
use bitgate.Base.Map.{get}
use bitgate.Nostr.Replaceable.{
  NostrEvent, coordinate_of, select_replaceable, select_latest, Verdict, accepted, rejected, passes,
  verify_events,
}
use bitgate.Nostr.Replaceable.Latest.{
  select_replaceable_lem, holds, select_replaceable-verify_events,
}
use bitgate.Nostr.Replaceable.Arrival.{stamp, select_replaceable-perm}

abbrev list_at : ℕ → Text → NostrEvent
list_at created_at id = record {
  id = id;
  pubkey = codes "a1";
  kind = 30000;
  created_at = created_at;
  tags = (codes "d" ∷ codes "mutes" ∷ []) ∷ [];
  content = [];
  sig = none;
}

-- Two lists of one second, and an older one.
abbrev first : NostrEvent
first = list_at 20 (codes "0a")

abbrev second : NostrEvent
second = list_at 20 (codes "0b")

abbrev older : NostrEvent
older = list_at 10 (codes "00")

select_replaceable_lem_example :
    get (select_replaceable (older ∷ second ∷ first ∷ [])) (codes "30000:a1:mutes")
    ≡ select_latest
        (filter (λ e. coordinate_of e == codes "30000:a1:mutes") (older ∷ second ∷ first ∷ []))
select_replaceable_lem_example =
    select_replaceable_lem (older ∷ second ∷ first ∷ []) (codes "30000:a1:mutes")

select_replaceable-perm_example :
    stamp (get (select_replaceable (first ∷ second ∷ older ∷ [])) (codes "30000:a1:mutes"))
    ≡ stamp (get (select_replaceable (second ∷ first ∷ older ∷ [])) (codes "30000:a1:mutes"))
select_replaceable-perm_example =
    select_replaceable-perm (first ∷ second ∷ older ∷ []) (second ∷ first ∷ older ∷ [])
      (codes "30000:a1:mutes") (Permᴰ.swap refl refl)

abbrev only_first : NostrEvent → Verdict
only_first e = elim (e.id == codes "0a") [ true ↦ accepted | false ↦ rejected ]

select_replaceable-verify_events_example :
    holds
      (λ e. passes (only_first e))
      (get
        (select_replaceable (verify_events (second ∷ first ∷ []) (some only_first)))
        (codes "30000:a1:mutes"))
    ≡ true
select_replaceable-verify_events_example =
    select_replaceable-verify_events (second ∷ first ∷ []) only_first (codes "30000:a1:mutes")
