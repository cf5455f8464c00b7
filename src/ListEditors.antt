-- ===== src/ListEditors.antt =====
-- The editors that keep a whole list on the server: DNS block lists, DNS records and inspection
-- lists. Each loads the list and sends the whole list back. The server is a parameter: its state,
-- and what it does with the two requests. A request that fails gives the message of the error.
pub mod BlockLists
pub mod Records
pub mod Filter
use gatesentry.Shared.{
  ℕ, String, Bool, true, false, Option, none, some, List, [], ◌∷◌, ◌++◌, ◌≡◌, ◌⊎◌, inl, inr,
  if◌then◌else◌, truthy, set, erase_idx,
}

pub record ListApi (S A : Type 0) : Type 0 where
  pub load : S → List A ⊎ String
  pub save : List A → S → S × Option String
  pub held : S → List A

-- A save that succeeds stores the list that was sent.
pub record IsSound {S A : Type 0} (api : ListApi S A) : Type 0 where
  pub stores : (xs : List A) (s : S) → (api.save xs s).1 ≡ none → api.held (api.save xs s).0 ≡ xs

-- `caught instanceof Error && caught.message ? caught.message : fallback`
abbrev pub error_text : String → String → String
error_text message fallback = if truthy message then message else fallback
