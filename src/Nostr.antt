-- ===== src/Nostr.antt =====
-- packages/nostr/src: the Nostr codecs.
pub mod Nip19
pub mod Tags
pub mod Contacts
pub mod Mutes
pub mod Reports
pub mod Labels
pub mod Roster
pub mod Canonical
pub mod Replaceable
