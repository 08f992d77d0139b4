-- ===== src/Tests/Contexts.antt =====
-- The two contexts and the client.
use text.Mathlib.TextLemmas.{cons≢nil}
use chis.Base.{◌≡◌, ◌≢◌, refl, true, false, some, none, [], ◌∷◌, arith}
use chis.Base.Array
use chis.Net.{fulfilled, headers_of}
use chis.Net.LocalStorage.{get_item}
use chis.Session
use chis.Session.{set_auth, is_authenticated}
use chis.Orgs.{on_authenticated, sign_in, has_id, load_settled, add_org, sign_out}
use chis.Orgs.Selected.{org_header-current}
use chis.Orgs.Listed.{current_org-listed}
use chis.Orgs.Credentials.{reload-session, authorization-session}
use chis.Orgs.Late.{load_settled-sign_out, selected_first}
use chis.Tests.Data.{
  parse, stringify, parse-stringify, stringify-shows, signed_in, at_acme, Reach-at_acme, acme, zeta,
}

some_id : acme.id ≢ ""
some_id = cons≢nil

org_header-current_example : get_item (headers_of at_acme.local true) "X-Org-ID" ≡ some "o1"
unfolding add_org
org_header-current_example = org_header-current {o = acme} Reach-at_acme refl some_id

reload-session_example : Session.initial parse at_acme.local ≡ at_acme.session
reload-session_example =
    reload-session parse stringify parse-stringify stringify-shows Reach-at_acme

authorization-session_example :
    get_item (headers_of at_acme.local true) "Authorization" ≡ some "Bearer t1"
unfolding add_org sign_in set_auth Session.initial get_item
authorization-session_example =
    authorization-session parse stringify parse-stringify stringify-shows Reach-at_acme

listed_now : at_acme.organizations ≢ []
unfolding add_org sign_in
listed_now = ground arith

current_org-listed_example : Array.any (has_id "o1") at_acme.organizations ≡ true
unfolding add_org
current_org-listed_example = current_org-listed {o = acme} Reach-at_acme refl listed_now

signed_in_now : is_authenticated signed_in.session ≡ true
unfolding sign_in set_auth on_authenticated Session.initial get_item
signed_in_now = refl

load_settled-sign_out_example :
    ((sign_out signed_in).organizations ≡ [])
    × ((sign_out signed_in).current_org ≡ none)
    × (is_authenticated (load_settled (fulfilled (acme ∷ zeta ∷ [])) (sign_out signed_in)).session
        ≡ false)
    × (load_settled (fulfilled (acme ∷ zeta ∷ [])) (sign_out signed_in)
        ≡ selected_first acme (zeta ∷ []) (sign_out signed_in))
load_settled-sign_out_example = load_settled-sign_out acme (zeta ∷ []) signed_in signed_in_now
