-- ===== src/Accounts/Invitations/Accepted.antt =====
-- An invitation from its creation to the membership.
use chis.Base.{ℕ, String, true, false, Option, some, [], ◌∷◌, ◌++◌, ◌≡◌}
use chis.Base.Array
use mathlib.Core.Option
use chis.Accounts.{User, Invitation, accepted, Tables}
use chis.Accounts.Queries.{invites, has_token, accept_row}
use chis.Accounts.Invitations.{CreateInvitationRequest, new_invitation, is_member, Mail}
use chis.Accounts.Answers.{membership_for}

module _ (now : ℕ) (admin org id token : String) (req : CreateInvitationRequest) (t : Tables) where
  abbrev pub offered : Invitation
  offered = new_invitation (λ n. true) now admin org id (some token) req token

  abbrev pub with_offer : Tables
  with_offer = record t { invitations = t.invitations ++ offered ∷ [] }

  -- Neither the e-mail in the organization nor the token is in the table.
  pub record IsUninvited : Type 0 where
    pub email : Array.any (invites org req.email) t.invitations ≡ false
    pub token_is_new : Array.any (has_token token) t.invitations ≡ false
    pub not_member : is_member (λ n. true) org req.email t ≡ false

  module _ (later : ℕ) (u : User) where
    -- The tables after the acceptance.
    abbrev pub with_member : Tables
    with_member = record t {
      memberships = t.memberships ++ membership_for u.id offered ∷ [];
      invitations = accept_row later id (t.invitations ++ offered ∷ []);
    }

    used : Invitation
    used = record offered { status = accepted; accepted_at = some later }

    -- The address and the token of an e-mail.
    abbrev pub to_whom : Option Mail → Option (String × String)
    to_whom = Option.map (λ (m : Mail). (m.to, m.token))
