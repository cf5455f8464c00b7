-- ===== src/ListEditors/Records/Lost.antt =====
-- A save whose reload fails leaves the editor with the old rows.
use mathlib.Core.Bool.{false≢true}
use gatesentry.Shared.{
  String, Bool, true, false, Option, none, some, List, [], ◌∷◌, ◌++◌, ◌≡◌, ◌∙◌, refl, sym, ap, ◌⊎◌,
  inl, inr, if_cases, trim,
}
use gatesentry.ListEditors.{ListApi, IsSound}
use gatesentry.ListEditors.Records.{
  Entry, DnsRecord, Editor, payload, close_form, next_records, loaded, persisted, persist, if_saved,
  may_save, save_row,
}

payload-append :
    (rows : List DnsRecord) (r : DnsRecord)
    → payload (rows ++ r ∷ []) ≡ payload rows ++ record { domain = r.domain; ip = r.ip } ∷ []
payload-append [] r = refl
payload-append (q ∷ rows) r =
    ap (record { domain = q.domain; ip = q.ip } ∷◌) (payload-append rows r)

module _ {S : Type 0} (translator : String → String) (is_ipv4 : String → Bool)
    (api : ListApi S Entry) where
  -- What a new record of the form is sent with.
  abbrev pub sent : Editor → List Entry
  sent p = payload p.records ++ record { domain = trim p.domain_text; ip = trim p.ip_text } ∷ []

  saved_page : (p : Editor) (r : S × Option String) → Editor × S
  saved_page p r = if_saved translator is_ipv4 api close_form (persisted translator is_ipv4 api r p)

  save_row-persisted :
      (p : Editor) (s : S)
      → may_save translator is_ipv4 api p ≡ true
      → p.saving ≡ false
      → p.editing_row_id ≡ none
      → save_row translator is_ipv4 api (p, s) ≡ saved_page p (api.save (sent p) s)
  unfolding save_row persist saved_page
  save_row-persisted p s may free fresh =
      if_cases (λ x. x ≡ saved_page p (api.save (sent p) s)) (may_save translator is_ipv4 api p)
        (λ go.
          if_cases
            (λ r. if_saved translator is_ipv4 api close_form r ≡ saved_page p (api.save (sent p) s))
            p.saving (λ busy. absurd (false≢true (sym free ∙ busy)))
            (λ idle.
              ap (λ xs. saved_page p (api.save xs s))
                (ap (λ i. payload (next_records i (trim p.domain_text) (trim p.ip_text) p.records))
                    fresh
                  ∙ payload-append p.records _)))
        (λ stop. absurd (false≢true (sym stop ∙ may)))

  server-saved_page : (p : Editor) (r : S × Option String) → (saved_page p r).1 ≡ r.0
  unfolding saved_page
  server-saved_page p (s, none) = refl
  server-saved_page p (s, some message) = refl

  records-loaded :
      (r : List Entry ⊎ String) (p : Editor) (message : String)
      → r ≡ inr message
      → (loaded translator is_ipv4 api r p).records ≡ p.records
  records-loaded (inl entries) p message h = cc
  records-loaded (inr m) p message h = refl

  records-saved_page :
      (p : Editor) (r : S × Option String) (message : String)
      → api.load r.0 ≡ inr message
      → (saved_page p r).0.records ≡ p.records
  unfolding saved_page close_form
  records-saved_page p (s, none) message h = records-loaded (api.load s) p message h
  records-saved_page p (s, some m) message h = refl

  -- If a new record is saved but the reload after it fails, then the next new record, whose save
  -- succeeds, removes the first one from the server: the server is left with the rows from before
  -- both and the second record alone. `next` is what the administrator types into the form, which is
  -- that of a new record.
  pub save_row-lost :
      (p next : Editor) (s : S) (message : String)
      → IsSound api
      → may_save translator is_ipv4 api p ≡ true
      → p.saving ≡ false
      → p.editing_row_id ≡ none
      → api.load (api.save (sent p) s).0 ≡ inr message
      → next.records ≡ (save_row translator is_ipv4 api (p, s)).0.records
      → may_save translator is_ipv4 api next ≡ true
      → next.saving ≡ false
      → next.editing_row_id ≡ none
      → (api.save (sent next) (api.save (sent p) s).0).1 ≡ none
      → api.held
          (save_row translator is_ipv4 api (next, (save_row translator is_ipv4 api (p, s)).1)).1
        ≡ payload p.records
          ++ record { domain = trim next.domain_text; ip = trim next.ip_text } ∷ []
  save_row-lost p next s message sound may free fresh failed shown may' free' fresh' stored =
      let first = save_row-persisted p s may free fresh in
      let moved : (save_row translator is_ipv4 api (p, s)).1 ≡ (api.save (sent p) s).0 =
        ap (λ x. x.1) first ∙ server-saved_page p _ in
      let rows : next.records ≡ p.records =
        shown ∙ (ap (λ x. x.0.records) first ∙ records-saved_page p _ message failed) in
      ap (λ t. api.held (save_row translator is_ipv4 api (next, t)).1) moved
      ∙ (ap (λ x. api.held x.1) (save_row-persisted next _ may' free' fresh')
          ∙ (ap api.held (server-saved_page next _)
              ∙ (sound.stores (sent next) _ stored
                  ∙ ap
                      (λ rs.
                        payload rs
                        ++ record { domain = trim next.domain_text; ip = trim next.ip_text } ∷ [])
                      rows)))
