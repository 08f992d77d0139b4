-- ===== src/Forms.antt =====
-- The forms of web/src/features/auth: logging in and registering, and their markup. A submitted form
-- is cut at its `await`; what it does outside its own state is a list of effects, in order.
pub mod Fields
pub mod Login
pub mod Register
pub mod Return
pub mod LoginForm
pub mod RegisterForm
pub mod Refused
