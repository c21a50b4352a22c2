-- ===== src/Lib.antt =====
-- BitGate: the governance engine of packages/core, which decides for Nostr applications what to
-- show, what to allow and what to sell, with the codecs and the stores that feed it.
--
-- How the parts work together. Actors publish contributions (adminState.js) about targets
-- (identifiers.js, targets.js). `reduceAdminState` turns the contributions into five sets, letting
-- in those whose actor holds the matching capability (authority.js). `evaluateTarget`
-- (evaluator.js) reads the sets, the reports and mutes of trusted accounts and the viewer's own
-- state, applies a policy's profile (policy.js) and returns a decision in four dimensions, with its
-- reasons (reasons.js) and its evidence (evidence.js). `composeDecisions` joins decisions.
--
-- Base is shared: texts as lists of UTF-16 code units with JavaScript's `trim` and the lower case
-- of ASCII letters (Base.Text), `Set` and `Map` in insertion order (Base.Set, Base.Map), sorting by
-- code units (Base.Sort), and the results of code that throws, with one error for each `throw`.
--
-- Core models packages/core/src, one module for each file:
--   Core.Identifiers (identifiers.js): GovernanceTarget, normalizePubkey, normalizeEventId,
--     normalizeAddress, createUserTarget, createEventTarget, getTargetKey.
--   Core.Targets (targets.js): areTargetsEqual, isValidTarget, getParentTarget, isDescendantOf.
--   Core.Reasons (reasons.js): createReason, dedupeReasons.
--   Core.Evidence (evidence.js): createEmptyEvidence, freezeEvidence, mergeEvidence,
--     redactEvidence.
--   Core.Policy (policy.js): Effects has the ladders and maxEffect, Gates has applyThresholds,
--     Decision has applyEffects and composeDecisions, Profile has the normalization and the lookup
--     of profiles and policies.
--   Core.Authority (authority.js): createAuthorityState, getActorRoles, getActorCapabilities,
--     hasCapability, hasRole, isProtectedActor, createRoleDefinition.
--   Core.AdminState (adminState.js): reduceAdminState, protectActors, mergeCommunitySource,
--     isDenied, serializeAdminState. The mutated state is passed from step to step.
--   Core.Evaluator (evaluator.js): Snapshot has the records that an evaluation reads, Signals has
--     aggregateReports and aggregateMutes, Steps has the steps of evaluateTarget, each from the
--     decision and evidence so far to the next, and Target composes them in the code's order and
--     has evaluateMany.
--   Core.Fingerprint (fingerprint.js): hashString, with its wrap-around at 32 bits;
--     Fingerprint.Canonical has canonicalStringify and fingerprint on a type of JSON values, and
--     Canonical.States the values that states are turned into.
--
-- Nostr models packages/nostr/src, from events to what the stores take in:
--   Nostr.Replaceable (replaceable.js): getTagValue, getTags, coordinateOf, selectReplaceable,
--     selectLatest and verifyEvents. The signature verifier is the application's and a parameter, a
--     function from events to one of three outcomes.
--   Nostr.Nip19 (nip19.js): bech32Decode, convertBits, normalizePubkeyInput,
--     normalizeEventIdInput. Nostr.Tags has the readings of tags that the codecs share.
--   Nostr.Canonical (canonical.js): documents of governance. parseIdentifier, decodeContribution,
--     encodeContribution, decodeRoles and decodePolicy; children are Identifier, Contributions and
--     Roles.
--   Nostr.Mutes (mutes.js): decodeMuteList, encodeMuteList, decodePrivateMuteEntries, with the
--     decryption and the parse of the plaintext as a parameter (`Opener`), and toMuteRecords.
--   Nostr.Reports (reports.js): decodeReport, encodeReport. Nostr.Contacts (contacts.js):
--     contact lists. Nostr.Labels (labels.js): decodeLabels, labelsToContributions, encodeLabel and
--     contributionToLabel. Nostr.Roster (roster.js): resolveAuthorityRoster.
--
-- Runtime models packages/runtime/src, where the decoded values are kept and evaluated:
--   Runtime.Stores (stores.js): an operation gives an Outcome, the new store with the changes that
--     it emits in order. Admin is GovernanceAdminStore, Trust is TrustGraphStore, Reports is
--     ReportStore, Mutes is TrustedMuteStore, Policies is PolicyStore, Overrides is OverrideStore.
--     The time of a call is an argument. Policies are compared by identity in the code, so the
--     model pairs each with the identity of its object. Stores.Eviction has what the ceilings share.
--   Runtime.Decisions (runtime.js): the six stores, the viewer, the active targets and the decision
--     cache in one record. `snapshot` puts the stores together as Core.Evaluator.Snapshot wants it,
--     `evaluate` looks into the cache and else evaluates, and the listeners of the constructor run
--     over the changes of an operation and drop cached decisions.
--   Runtime.Chunks (runtime.js): chunk.
--
-- Tests applies the theorems at concrete inputs.
--
-- Bounds. Counts, thresholds, kinds and times are natural numbers; normalization floors thresholds
-- and rejects negative ones, and times are whole seconds. Every loop is structural recursion over
-- the list that the code iterates, except the recursion of isDescendantOf, on two rounds of fuel;
-- the digits of a number, decimal ones (Base.Decimal) on fuel above the number, hexadecimal ones
-- (Core.Fingerprint) on the eight rounds that a 32-bit word needs; the inner loop of convertBits,
-- on as many rounds as there are bits, of which each takes at least one; and chunk, on as many
-- rounds as there are items, of which each takes at least one.
--
-- Not modelled. The marker that canonicalStringify writes for an object that occurs twice: values
-- are trees here. createTarget, the presets, the codecs of legacy lists and relay lists, the
-- routing of ingestEvent with its gates, persistence and loaders of the runtime, its commands,
-- emitter and transport, the widget and the tests of the repository are left out.
-- JSON.parse and decryption are code of the platform and of the application's signer.
-- Values of a wrong JavaScript type are left out where the types rule them out; where the code
-- treats them in a way of its own (a malformed target, an effect on no ladder, a number that is not
-- finite), the types have room for them. Objects list integer-like keys first; that order is not
-- modelled. A kind that a lookup found on `Object.prototype` is no text; it has a constructor of its
-- own, and where it stands in a tag it counts as an empty element, as the readers' type tests make
-- it.
pub mod Base
pub mod Core
pub mod Nostr
pub mod Runtime
pub mod Tests
