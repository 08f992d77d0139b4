-- ===== src/View.antt =====
-- What a page shows: its widgets in document order. Containers, class names and icons are left out;
-- what stands under a condition is `when`, and what stands in a `map` is `each`.
use chis.Base.{
  ℕ, String, Bool, true, false, ◌≡◌, refl, ap, Option, List, [], ◌∷◌, ◌++◌, if◌then◌else◌,
}

-- `E` is what an interaction with the page means to it.
pub data Widget (E : Type 0) : Type 0 where
  heading : String → Widget E
  text : String → Widget E
  -- text that is cut by UTF-16 code units
  code_units : List ℕ → Widget E
  banner : String → Widget E
  skeleton : Widget E
  -- variant and text
  badge : String → String → Widget E
  -- placeholder, value, and the change
  input : String → String → (String → E) → Widget E
  -- the options' values, the value, and the change (to nothing, too)
  select : List String → String → (Option String → E) → Widget E
  -- label, whether it is disabled, and the click
  button : String → Bool → E → Widget E
  -- a row that is clicked
  row : E → Widget E
  -- a button that opens a dialog with a title and the label of its action
  confirm : String → String → E → Widget E
  -- label and target
  link : String → String → Widget E

abbrev pub View : Type 0 → Type 0
View E = List (Widget E)

abbrev pub when : {E : Type 0} → Bool → View E → View E
when true v = v
when false v = []

abbrev pub each : {A E : Type 0} → (A → View E) → List A → View E
each f [] = []
each f (x ∷ xs) = f x ++ each f xs

-- The confirmed actions that a view offers, in order.
abbrev pub confirms : {E : Type 0} → View E → List E
confirms [] = []
confirms (confirm _ _ e ∷ v) = e ∷ confirms v
confirms (_ ∷ v) = confirms v

-- The clicks that it offers, of enabled buttons.
abbrev pub clicks : {E : Type 0} → View E → List E
clicks [] = []
clicks (button _ disabled e ∷ v) = if disabled then clicks v else e ∷ clicks v
clicks (_ ∷ v) = clicks v

pub confirms-append : {E : Type 0} (v w : View E) → confirms (v ++ w) ≡ confirms v ++ confirms w
confirms-append [] w = refl
confirms-append (confirm _ _ e ∷ v) w = ap (λ es. e ∷ es) (confirms-append v w)
confirms-append (_ ∷ v) w = confirms-append v w

pub clicks-append : {E : Type 0} (v w : View E) → clicks (v ++ w) ≡ clicks v ++ clicks w
clicks-append [] w = refl
clicks-append (button _ true e ∷ v) w = clicks-append v w
clicks-append (button _ false e ∷ v) w = ap (λ es. e ∷ es) (clicks-append v w)
clicks-append (_ ∷ v) w = clicks-append v w

-- A widget whose interaction means something else.
abbrev on_widget : {A B : Type 0} → (A → B) → Widget A → Widget B
on_widget f (heading t) = heading t
on_widget f (text t) = text t
on_widget f (code_units us) = code_units us
on_widget f (banner t) = banner t
on_widget f skeleton = skeleton
on_widget f (badge v t) = badge v t
on_widget f (input p v change) = input p v (λ t. f (change t))
on_widget f (select vs v change) = select vs v (λ o. f (change o))
on_widget f (button l d e) = button l d (f e)
on_widget f (row e) = row (f e)
on_widget f (confirm t l e) = confirm t l (f e)
on_widget f (link l to) = link l to

abbrev pub on : {A B : Type 0} → (A → B) → View A → View B
on f [] = []
on f (w ∷ v) = on_widget f w ∷ on f v
