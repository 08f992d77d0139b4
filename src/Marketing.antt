-- ===== src/Marketing.antt =====
-- The snippets of the marketing site: marketing/src/components/CodeTabs.tsx, how to send a webhook, and
-- VerifyTabs.tsx, how to verify one, in several languages. The two components differ in their snippets.
pub mod Snippet
pub mod Tabs
pub mod CodeTabs
pub mod VerifyTabs
pub mod Copied
