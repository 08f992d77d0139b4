-- ===== src/Tests/Lists.antt =====
-- What requests do to the lists of the pages, and the settings page.
use chis.Base.{
  String, ◌≡◌, ◌≢◌, refl, true, false, Option, some, none, [], ◌∷◌, arith, eq_iff, ◌==◌,
}
use chis.Base.Text.{trim}
use chis.Net.{fulfilled, request_of}
use chis.Net.LocalStorage.{get_item}
use chis.Api.Types.{ApiKey, Invitation, PendingInvitation, AcceptInvitationResponse}
use chis.Api.Invitations.{accept}
use chis.Api.Organizations.{delete_organization}
use chis.Orgs.{add_org}
use chis.Hooks.SigningSecret
use chis.Pages.SettingsPage.{SettingsState, delete_begin}
use chis.Pages.SettingsPage.Deleting.{delete_begin-current}
use chis.Pages.PlaygroundPage.{PlaygroundState, Call, send_begin}
use chis.Parts.PendingInvitations.{PendingState, respond_begin, respond_settled}
use chis.Parts.PendingInvitations
use chis.Parts.PendingInvitations.Responding.{Answered, Enters, respond_settled-Answered}
use chis.Tests.Data.{at_acme, signed_in, Reach-at_acme, acme}

different : {s t : String} → (s == t) ≡ false → s ≢ t
different {s} {t} h = λ e. ground (arith, eq_iff s t)

abbrev ci_key : ApiKey
ci_key = record {
  id = "k1";
  name = "ci";
  prefix = "chis_";
  created_at = "2025";
  last_used_at = none;
}

abbrev ada_invited : Invitation
ada_invited = record {
  id = "i1";
  email = "ada@example.com";
  role = "member";
  status = "pending";
  expires_at = "2026";
  created_at = "2025";
}

abbrev settings : SettingsState
settings = record {
  secret = record SigningSecret.initial { is_loading = false };
  orgs = at_acme;
  confirm_name = "Acme";
  is_deleting = false;
  error = "";
  is_open = true;
  secret_visible = false;
  copied = false;
  rotate_open = false;
}

asked : (delete_begin settings).1 ≡ some (delete_organization "Acme")
unfolding delete_begin add_org
asked = refl

delete_begin-current_example :
    ("Acme" ≡ acme.name)
    × ((request_of "" at_acme.local (delete_organization "Acme")).body
        ≡ some (record { name = "Acme" }))
    × (get_item (request_of "" at_acme.local (delete_organization "Acme")).headers "X-Org-ID"
        ≡ some "o1")
unfolding add_org
delete_begin-current_example =
    delete_begin-current "" settings acme (delete_organization "Acme") Reach-at_acme refl
      (different refl) asked

-- A JSON of texts alone.
abbrev as_text : String → Option String
as_text s = some s

abbrev playground : PlaygroundState
playground = record {
  api_key = " chis_sk_1 ";
  method = "POST";
  url = "https://example.com";
  payload = "{}";
  is_loading = false;
  response = none;
  error = none;
  copied = false;
}

abbrev call : Call as_text (λ s. s)
call = ("chis_sk_1", record { url = "https://example.com"; method = "POST"; payload = "{}" })

sent_now : (send_begin as_text (λ s. s) playground).1 ≡ some call
unfolding send_begin trim
sent_now = refl

abbrev nova : PendingInvitation
nova = record {
  id = "p1";
  org_name = "Nova";
  org_slug = "nova";
  role = "member";
  expires_at = "2026";
}

abbrev joined_nova : AcceptInvitationResponse
joined_nova = record {
  message = "ok";
  org_id = "o3";
  org_name = "Nova";
  org_slug = "nova";
  role = "member";
}

abbrev invited : PendingState
invited = record (PendingInvitations.initial signed_in) { invitations = nova ∷ []; is_open = true }

respond_settled-Answered_example :
    Answered "p1" invited
      (respond_settled "p1" accept (fulfilled joined_nova) (respond_begin "p1" invited))
    × Enters accept joined_nova signed_in
        (respond_settled "p1" accept (fulfilled joined_nova) (respond_begin "p1" invited)).orgs
respond_settled-Answered_example = respond_settled-Answered "p1" accept joined_nova invited
