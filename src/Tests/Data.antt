-- ===== src/Tests/Data.antt =====
-- A user, two organizations, and a JSON of users that reads back what it writes.
use Prim.Native.Char.{code}
use Prim.Native.String.{String, [], ◌∷◌}
use mathlib.Core.List
use text.Mathlib.TextLemmas.{cons≢nil}
use chis.Base.{◌≡◌, refl, ap, ◌≢◌, Option, some, nat_eq, if◌then◌else◌}
use chis.Api.Types.{AuthUser, Organization}
use chis.Orgs.{OrgState, mounted, on_authenticated, add_org, sign_in}
use chis.Orgs.Steps.{Reach, start, later, login, added}
use chis.Session

-- A text, with a mark before each character, and another mark at its end; then the rest.
unfoldable pub write : String → String → String
write [] rest = "." ∷ rest
write (c ∷ s) rest = "x" ∷ c ∷ write s rest

unfoldable pub read : String → String × String
read [] = ("", "")
read (m ∷ []) = ("", "")
read (m ∷ c ∷ rest) =
    let r = read rest in if nat_eq (code m) 120 then (c ∷ r.0, r.1) else ("", c ∷ rest)

read-write : (s rest : String) → read (write s rest) ≡ (s, rest)
unfolding read write
read-write [] [] = refl
read-write [] (c ∷ rest) = refl
read-write (c ∷ s) rest = ap (λ (r : String × String). (c ∷ r.0, r.1)) (read-write s rest)

write-shows : (s rest : String) → write s rest ≢ ""
unfolding write
write-shows [] rest = cons≢nil
write-shows (c ∷ s) rest = cons≢nil

unfoldable pub stringify : AuthUser → String
unfolding write
stringify u = write u.id (write u.email (write u.first_name ""))

unfoldable pub parse : String → Option AuthUser
unfolding read
parse text =
    let id = read text in
    let email = read id.1 in
    some (record { id = id.0; email = email.0; first_name = (read email.1).0 })

pub parse-stringify : (u : AuthUser) → parse (stringify u) ≡ some u
unfolding parse stringify
parse-stringify u = rw (
  read-write u.id (write u.email (write u.first_name "")),
  read-write u.email (write u.first_name ""),
  read-write u.first_name "",
)

pub stringify-shows : (u : AuthUser) → stringify u ≢ ""
unfolding stringify
stringify-shows u = write-shows u.id _

abbrev pub ada : AuthUser
ada = record { id = "u1"; email = "ada@example.com"; first_name = "Ada" }

abbrev pub acme : Organization
acme = record { id = "o1"; name = "Acme"; slug = "acme"; role = "admin" }

abbrev pub zeta : Organization
zeta = record { id = "o2"; name = "Zeta"; slug = "zeta"; role = "member" }

-- Ada signs in on an empty storage and creates an organization.
abbrev pub signed_in : OrgState
signed_in = sign_in stringify "t1" ada (on_authenticated (mounted (Session.initial parse List.[])))

abbrev pub at_acme : OrgState
at_acme = add_org acme signed_in

pub Reach-at_acme : Reach parse stringify at_acme
Reach-at_acme = later (later (start List.[]) (login _ "t1" ada)) (added _ acme)
