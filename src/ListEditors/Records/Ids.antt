-- ===== src/ListEditors/Records/Ids.antt =====
-- The ids of the records, by which rows are edited and deleted.
use gatesentry.Shared.{
  ℕ, suc, ◌+◌, String, Bool, Option, none, some, List, [], ◌∷◌, ◌≡◌, refl, ◌⊎◌, inl, inr, if_cases,
  ℕ_eq,
}
use gatesentry.ListEditors.{ListApi}
use gatesentry.ListEditors.Records.{
  Entry, DnsRecord, Editor, numbered, payload, close_form, open_create, edit_record, edit_row,
  request_delete, loaded, load_api_data, persisted, persist, if_saved, may_save, save_row,
  delete_target, confirm_delete, Event, reload, create, cancel, submit, confirm, edit, ask_delete,
  step, run,
}

-- The ids are `i + 1`, `i + 2` and so on.
abbrev pub IsNumbered : ℕ → List DnsRecord → Type 0
IsNumbered i [] = Unit
IsNumbered i (r ∷ rs) = (r.id ≡ i + 1) × IsNumbered (suc i) rs

numbered-IsNumbered : (i : ℕ) (es : List Entry) → IsNumbered i (numbered i es)
numbered-IsNumbered i [] = tt
numbered-IsNumbered i (e ∷ es) = (refl, numbered-IsNumbered (suc i) es)

module _ {S : Type 0} (translator : String → String) (is_ipv4 : String → Bool)
    (api : ListApi S Entry) where
  abbrev HasIds : Editor × S → Type 0
  HasIds (p, s) = IsNumbered 0 p.records

  loaded-HasIds :
      (r : List Entry ⊎ String) (p : Editor)
      → IsNumbered 0 p.records
      → IsNumbered 0 (loaded translator is_ipv4 api r p).records
  loaded-HasIds (inl entries) p h = numbered-IsNumbered 0 entries
  loaded-HasIds (inr message) p h = h

  persisted-HasIds :
      (f : Editor → Editor) (r : S × Option String) (p : Editor)
      → ((q : Editor) → (f q).records ≡ q.records)
      → IsNumbered 0 p.records
      → HasIds (if_saved translator is_ipv4 api f (persisted translator is_ipv4 api r p))
  persisted-HasIds f (s, none) p keeps h = rw (keeps _) (loaded-HasIds (api.load s) p h)
  persisted-HasIds f (s, some message) p keeps h = h

  persist-HasIds :
      (rows : List DnsRecord) (f : Editor → Editor) (p : Editor) (s : S)
      → ((q : Editor) → (f q).records ≡ q.records)
      → IsNumbered 0 p.records
      → HasIds (if_saved translator is_ipv4 api f (persist translator is_ipv4 api rows (p, s)))
  unfolding persist
  persist-HasIds rows f p s keeps h =
      if_cases (λ r. HasIds (if_saved translator is_ipv4 api f r)) p.saving (λ busy. h)
        (λ free. persisted-HasIds f (api.save (payload rows) s) p keeps h)

  target-HasIds :
      (t : Option DnsRecord) (p : Editor) (s : S)
      → IsNumbered 0 p.records
      → HasIds (delete_target translator is_ipv4 api t (p, s))
  target-HasIds none p s h = h
  target-HasIds (some t) p s h =
      persist-HasIds _ (λ q. record q { pending_delete = none }) p s (λ q. refl) h

  edit-HasIds :
      (i : ℕ) (r : Option DnsRecord) (p : Editor)
      → IsNumbered 0 p.records
      → IsNumbered 0 (edit_record i r p).records
  edit-HasIds i none p h = h
  edit-HasIds i (some r) p h = h

  step-HasIds :
      (e : Event) (p : Editor) (s : S)
      → IsNumbered 0 p.records
      → HasIds (step translator is_ipv4 api e (p, s))
  unfolding step
  step-HasIds reload p s h = unfold load_api_data in loaded-HasIds (api.load s) p h
  step-HasIds create p s h = unfold open_create close_form in h
  step-HasIds cancel p s h = unfold close_form in h
  step-HasIds submit p s h =
      unfold save_row in
      if_cases HasIds (may_save translator is_ipv4 api p)
        (λ go. persist-HasIds _ close_form p s (λ q. unfold close_form in refl) h) (λ stop. h)
  step-HasIds confirm p s h =
      unfold confirm_delete in
      if_cases HasIds p.saving (λ busy. h) (λ free. target-HasIds p.pending_delete p s h)
  step-HasIds (edit i) p s h = unfold edit_row in edit-HasIds i _ p h
  step-HasIds (ask_delete i) p s h = unfold request_delete in h
  step-HasIds _ p s h = h

  -- Whatever an administrator does and the server answers, the records on the page have the ids 1,
  -- 2, 3 and so on: no two rows share the id by which they are edited and deleted.
  pub run-IsNumbered :
      (es : List Event) (p : Editor) (s : S)
      → IsNumbered 0 p.records
      → IsNumbered 0 (run translator is_ipv4 api es (p, s)).0.records
  unfolding run
  run-IsNumbered [] p s h = h
  run-IsNumbered (e ∷ es) p s h =
      let (q, t) = step translator is_ipv4 api e (p, s) in
      run-IsNumbered es q t (step-HasIds e p s h)
