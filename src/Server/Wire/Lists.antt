-- ===== src/Server/Wire/Lists.antt =====
-- internal/server/wire/wire.go: updates, divergences and the list response, restored as sent.
use spectre.Prelude.{◌≡◌, refl, false, List, [], ◌∷◌, map, text_eq, All, ok}
use spectre.Model.{State, Update, state_update, quarantine_update, calls_update, Divergence}
use spectre.Server.Wire.Messages.{
  state_message, unidentified, state_from_message, update_message, update_from_message,
  divergence_message, divergence_from_message, list_response, restored_all, list_from_response,
}
use spectre.Server.Wire.RoundTrip.{
  IsSendable, directed_round, canonical, IsRouted, IsReportable, calls_round, state_round,
}

abbrev pub IsReportableUpdate : Update → Type 0
IsReportableUpdate (state_update s) = IsReportable s
IsReportableUpdate (quarantine_update d q) = IsSendable q
IsReportableUpdate (calls_update c) = IsRouted c

abbrev pub canonical_update : Update → Update
canonical_update (state_update s) = state_update (canonical s)
canonical_update (quarantine_update d q) = quarantine_update d q
canonical_update (calls_update c) = calls_update c

-- Every update whose state names its mirror, whose routes have names and whose quarantines can be
-- sent (32-bit counts, types for retyped differences alone, no empty node) is restored from its
-- message as it was, but for the order of a state's quarantines: ingress stands first.
pub update_round :
    (u : Update)
    → IsReportableUpdate u
    → update_from_message (update_message u) ≡ ok (canonical_update u)
unfolding update_from_message update_message
update_round (state_update s) h = rw (state_round s h) refl
update_round (quarantine_update d q) h = rw (directed_round d q h) refl
update_round (calls_update c) h = rw (calls_round c h) refl

pub record IsReportableDivergence (d : Divergence) : Type 0 where
  pub identified : unidentified d.service d.environment d.revision ≡ false
  pub sendable : IsSendable d.quarantine

divergence_round :
    (d : Divergence)
    → IsReportableDivergence d
    → divergence_from_message (divergence_message d) ≡ ok d
unfolding divergence_from_message divergence_message
divergence_round d h = rw (h.identified, directed_round d.direction d.quarantine h.sendable) refl

states_round :
    (ss : List State)
    → All IsReportable ss
    → restored_all state_from_message (map state_message ss) ≡ ok (map canonical ss)
unfolding restored_all
states_round [] h = refl
states_round (s ∷ ss) (first, others) = rw (state_round s first, states_round ss others) refl

divergences_round :
    (ds : List Divergence)
    → All IsReportableDivergence ds
    → restored_all divergence_from_message (map divergence_message ds) ≡ ok ds
unfolding restored_all
divergences_round [] h = refl
divergences_round (d ∷ ds) (first, others) =
    rw (divergence_round d first, divergences_round ds others) refl

-- The client restores from the list response the states and divergences that the server put into
-- it, in the same order, where each can be reported: a state with its quarantines ingress first.
pub list_round :
    (ss : List State) (ds : List Divergence)
    → All IsReportable ss
    → All IsReportableDivergence ds
    → list_from_response (list_response ss ds) ≡ ok (map canonical ss, ds)
unfolding list_from_response list_response
list_round ss ds hs hd = rw (states_round ss hs, divergences_round ds hd) refl
