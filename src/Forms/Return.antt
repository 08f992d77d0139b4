-- ===== src/Forms/Return.antt =====
-- A visitor who is sent to the login page comes back to where the visit began, through the
-- registration too.
use chis.Base.{String, ◌≡◌, ◌≢◌, ap, ◌∙◌, false, Option, some, [], ◌∷◌, arith, eq_iff}
use chis.Net.{fulfilled}
use chis.Api.Types.{LoginResponse, RegisterResponse}
use chis.Routes.{Viewer, Shown, redirect, protected_guard}
use chis.Routes.Paths.{PathLib, IsPathLib, Location, login_url, register_url}
use chis.Forms.Fields.{set_auth, navigate_replace}
use chis.Forms.Login
use chis.Forms.Login.{LoginState, destination, register_link}
use chis.Forms.Register
use chis.Forms.Register.{RegisterState, login_link}

-- The parameter `redirect` of a URL.
abbrev pub redirect_of : PathLib → String → Option String
redirect_of L url = L.param (L.parse url).search "redirect"

module _ (L : PathLib) (h : IsPathLib L) where
  redirect-login : (here : String) → redirect_of L (login_url L.encode here) ≡ some here
  redirect-login here =
      ap (λ (l : Location). L.param l.search "redirect") (h.login_parsed here)
      ∙ h.redirect_param here

  redirect-register : (here : String) → redirect_of L (register_url L.encode here) ≡ some here
  redirect-register here =
      ap (λ (l : Location). L.param l.search "redirect") (h.register_parsed here)
      ∙ h.redirect_param here

  -- A signed-out visitor of a protected page is sent to a login page; a login there, with any
  -- response, signs in with its token and the submitted address, and then goes back to the page, if
  -- its path is not empty and the browser treats URLs as it documents.
  pub return-login :
      (v : Viewer) (here : String) (outlet : Shown) (r : LoginResponse) (s : LoginState)
      → v.is_authenticated ≡ false
      → here ≢ ""
      → (url : String) × (protected_guard L.encode v here outlet ≡ redirect url)
        × ((Login.submit_settled s.email (redirect_of L url) (fulfilled r) (Login.submit_begin s)).1
            ≡ set_auth r.token (record { id = ""; email = s.email; first_name = "" })
              ∷ navigate_replace here
              ∷ [])
  unfolding protected_guard Login.submit_settled
  return-login v here outlet r s out ne =
      (login_url L.encode here, rw out, rw (redirect-login here) (ground (arith, eq_iff here "")))

  register_link-some :
      (here : String) → here ≢ "" → register_link L.encode (some here) ≡ register_url L.encode here
  unfolding register_link
  register_link-some here ne = ground (arith, eq_iff here "")

  login_link-some :
      (here : String) → here ≢ "" → login_link L.encode (some here) ≡ login_url L.encode here
  unfolding login_link
  login_link-some here ne = ground (arith, eq_iff here "")

  -- The way from a login page over its link to the registration, and back to a login page by the link
  -- there or by a registration that succeeds, keeps the page that the visit began with, if its
  -- path is not empty and the browser treats URLs as it documents.
  pub return-register :
      (here : String) (r : RegisterResponse) (s : RegisterState)
      → here ≢ ""
      → let register = register_link L.encode (redirect_of L (login_url L.encode here)) in
        (redirect_of L register ≡ some here)
        × (login_link L.encode (redirect_of L register) ≡ login_url L.encode here)
        × ((Register.submit_settled L.encode (redirect_of L register) (fulfilled r) s).1
            ≡ navigate_replace (login_url L.encode here) ∷ [])
  unfolding register_link login_link Register.submit_settled
  return-register here r s ne =
      let linked = ap (register_link L.encode) (redirect-login here) ∙ register_link-some here ne in
      let kept = ap (redirect_of L) linked ∙ redirect-register here in
      let back = ap (login_link L.encode) kept ∙ login_link-some here ne in
      (kept, back, ap (λ u. navigate_replace u ∷ []) back)
