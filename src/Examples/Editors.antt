-- ===== src/Examples/Editors.antt =====
-- The editors of whole lists on small servers, one that answers and one whose loads fail.
use gatesentry.Shared.{
  ℕ, if◌then◌else◌, String, Bool, true, false, none, List, [], ◌∷◌, ◌≡◌, refl, inl, inr, ℕ_eq,
  String_eq, trim, to_lower, truthy,
}
use gatesentry.ListEditors.{ListApi, IsSound}
use gatesentry.ListEditors.BlockLists as BlockLists
use gatesentry.ListEditors.BlockLists.Sync.{save_row-overwrites}
use gatesentry.ListEditors.Records as Records
use gatesentry.ListEditors.Records.Lost.{save_row-lost}
use gatesentry.ListEditors.Filter as Filter
use gatesentry.ListEditors.Filter.Unsaved.{confirm_delete-cancel_editing}

abbrev same : String → String
same s = s

-- A server that answers every request.
abbrev steady : {A : Type 0} → ListApi (List A) A
steady = record { load = λ s. inl s; save = λ xs s. (xs, none); held = λ s. s }

-- A server that stores what it is sent but fails to read it back.
abbrev broken : {A : Type 0} → ListApi (List A) A
broken = record { load = λ s. inr "HTTP 500"; save = λ xs s. (xs, none); held = λ s. s }

broken-IsSound : {A : Type 0} → IsSound (broken {A = A})
broken-IsSound = record { stores = λ xs s h. refl }

abbrev stored_urls : List String
stored_urls = "https://a.example/list" ∷ "https://b.example/list" ∷ []

abbrev block_lists : BlockLists.Editor
block_lists = record {
  data_rows = stored_urls;
  loading = false;
  saving = false;
  load_error = "";
  editing_row_id = none;
  editing_item_value = " HTTPS://c.example/list ";
  pending_delete = none;
  show_form = true;
  notices = [];
}

abbrev retyped : BlockLists.Editor
retyped = record (BlockLists.edit_row 0 block_lists) { editing_item_value = "http://d.example " }

save_row-overwrites_example :
    (BlockLists.save_row same broken
      (BlockLists.load_api_data same broken (block_lists, stored_urls))).1
    ≡ "HTTPS://c.example/list" ∷ []
unfolding BlockLists.value_is_valid to_lower trim
save_row-overwrites_example =
    save_row-overwrites same broken broken-IsSound block_lists stored_urls "HTTP 500" refl refl refl
      refl refl

abbrev router : Records.DnsRecord
router = record { id = 1; domain = "router.lan"; ip = "192.0.2.1" }

abbrev records : Records.Editor
records = record {
  records = router ∷ [];
  loading = false;
  saving = false;
  load_error = "";
  domain_text = "nas.lan";
  ip_text = "192.0.2.7";
  editing_row_id = none;
  pending_delete = none;
  show_form = true;
  notices = [];
}

abbrev next_records : Records.Editor
next_records = record records { domain_text = "tv.lan"; ip_text = "192.0.2.8" }

abbrev given_ip : String → Bool
given_ip s = truthy s

save_row-lost_example :
    (Records.save_row same given_ip broken
      (next_records, (Records.save_row same given_ip broken (records, [])).1)).1
    ≡ record { domain = "router.lan"; ip = "192.0.2.1" }
      ∷ record { domain = "tv.lan"; ip = "192.0.2.8" }
      ∷ []
unfolding Records.may_save trim Records.save_row Records.persist Records.close_form
save_row-lost_example =
    save_row-lost same given_ip broken records
      (record next_records {
        records = (Records.save_row same given_ip broken (records, [])).0.records;
      })
      [] "HTTP 500" broken-IsSound refl refl refl refl refl refl refl refl refl

abbrev texts : Filter.Numbers ℕ
texts = record { zero = 0; number = λ s. if truthy s then 1 else 0; is_finite = λ n. true }

abbrev blocked : Filter.Editor ℕ
blocked = record {
  rows =
      record { id = 1; content = "casino"; score = 10; draft = false }
      ∷ record { id = 2; content = "poker"; score = 5; draft = false }
      ∷ [];
  loading = false;
  saving = false;
  load_error = "";
  save_error = "";
  editing_row_id = none;
  pending_delete = none;
  next_id = 3;
  notices = [];
}

filter_actions : List Filter.Event
filter_actions = Filter.add ∷ Filter.type_content 3 "lotto" ∷ Filter.submit true ∷ Filter.add ∷ []

confirm_delete-cancel_editing_example :
    (Filter.confirm_delete same texts steady (
      Filter.request_delete 2 (
          Filter.cancel_editing (Filter.handle_content_change 1 "cas" (Filter.edit_row 1 blocked))),
      [],
    )).1
    ≡ record { content = "cas"; score = 10 } ∷ []
confirm_delete-cancel_editing_example =
    confirm_delete-cancel_editing same texts steady 1 2 "cas" blocked []
      (record { id = 1; content = "cas"; score = 10; draft = false })
      (record { id = 2; content = "poker"; score = 5; draft = false }) refl refl refl refl
