-- ===== src/Tests/Views.antt =====
-- What the pages offer.
use chis.Base.{true, false, none, [], ◌∷◌}
use chis.Api.Types.{ApiKey, Invitation, PendingInvitation}
use chis.Hooks.Invitations
use chis.Pages.MembersPage.{MembersPageState}
use chis.Parts.PendingInvitations
use chis.Parts.PendingInvitations.{PendingState}
use chis.Tests.Data.{signed_in}

abbrev ci_key : ApiKey
ci_key = record {
  id = "k1";
  name = "ci";
  prefix = "chis_";
  created_at = "2025";
  last_used_at = none;
}

abbrev ada_invited : Invitation
ada_invited = record {
  id = "i1";
  email = "ada@example.com";
  role = "member";
  status = "pending";
  expires_at = "2026";
  created_at = "2025";
}

abbrev members : MembersPageState
members = record {
  hook = record Invitations.initial { invitations = ada_invited ∷ []; is_loading = false };
  email = "bob@example.com";
}

abbrev nova : PendingInvitation
nova = record {
  id = "p1";
  org_name = "Nova";
  org_slug = "nova";
  role = "member";
  expires_at = "2026";
}

abbrev invited : PendingState
invited = record (PendingInvitations.initial signed_in) { invitations = nova ∷ []; is_open = true }
