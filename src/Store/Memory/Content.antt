-- ===== src/Store/Memory/Content.antt =====
-- crates/store/src/memory/backend.rs: feeds, articles and entities.
use Prim.Native.String.{String}
use mathlib.Core.Option
use sulix_intelligence.Prelude.{
  ℕ, I64, add_i64, lt_i64, List, [], ◌∷◌, ◌++◌, Option, none, some, Bool, ◌&&◌, map, Float, filterb,
  find, any, length, sort_by, take, drop, get, insert, values, HashMap, str_eq, ◌==◌, if◌then◌else◌,
  Mut, ok, err,
}
use sulix_intelligence.Store.ContentRows.{
  Feed, NewArticle, EntityInternal, RelationEdge, EntityDetail, EntitySummary,
}
use sulix_intelligence.Store.Error.{StoreError, d1}
use sulix_intelligence.Store.Memory.{MemoryStore, FetchResultEntry}
use sulix_intelligence.Store.Memory.Decisions.{stamp}

-- The articles linked to an entity, a link counted as often as it was made.
abbrev pub article_count_of : I64 → List (I64 × I64) → I64
article_count_of id links = length (filterb (λ l. l.1 == id) links)

abbrev pub detail_of : List (I64 × I64) → EntityInternal → EntityDetail
detail_of links e = record {
  id = e.id;
  name = e.name;
  normalized_name = e.normalized_name;
  entity_type = e.entity_type;
  canonical_id = e.canonical_id;
  description = e.description;
  metadata = e.metadata;
  article_count = article_count_of e.id links;
  created_at = e.created_at;
  updated_at = e.updated_at;
}

abbrev pub summary_of : List (I64 × I64) → EntityInternal → EntitySummary
summary_of links e = record {
  id = e.id;
  name = e.name;
  normalized_name = e.normalized_name;
  entity_type = e.entity_type;
  canonical_id = e.canonical_id;
  article_count = article_count_of e.id links;
  last_seen = e.updated_at;
}

abbrev pub is_duplicate : NewArticle → NewArticle → Bool
is_duplicate article a = a.feed_id == article.feed_id && str_eq a.guid article.guid

abbrev pub fresh_entity : I64 → (name normalized_name entity_type : String) → I64 → EntityInternal
fresh_entity id name normalized_name entity_type now = record {
  id = id;
  name = name;
  normalized_name = normalized_name;
  entity_type = entity_type;
  canonical_id = none;
  description = none;
  metadata = none;
  created_at = now;
  updated_at = now;
}

-- `if let Some(e) = entities.get_mut(&id) { e.updated_at = now }`
abbrev pub touched : I64 → I64 → HashMap I64 EntityInternal → HashMap I64 EntityInternal
touched id now m = elim (get ◌==◌ id m) [
  | none ↦ m
  | some e ↦ insert ◌==◌ id (record e { updated_at = now }) m
]

module _ {F : Type 0} where
  unfoldable pub find_feed : I64 → Mut (MemoryStore F) StoreError (Option Feed)
  find_feed id s = (ok (get ◌==◌ id s.feeds), s)

  unfoldable pub record_fetch_result :
      I64 → I64 → Option String → Option String → Mut (MemoryStore F) StoreError (Unit {0})
  record_fetch_result feed_id fetched_at etag last_modified s =
      let row : FetchResultEntry = record {
        feed_id = feed_id;
        fetched_at = fetched_at;
        etag = etag;
        last_modified = last_modified;
      } in
      if s.fail_fetch_result
      then (err (d1 "injected fetch result failure"), s)
      else (ok tt, record s { fetch_results = s.fetch_results ++ row ∷ [] })

  -- `None` if the feed has an article of that guid.
  unfoldable pub save_article : NewArticle → Mut (MemoryStore F) StoreError (Option I64)
  save_article article s =
      if s.fail_insert
      then (err (d1 "injected insert failure"), s)
      else if any (is_duplicate article) s.articles
      then (ok none, s)
      else (
        ok (some s.next_article_id),
        record s {
          next_article_id = add_i64 s.next_article_id 1;
          articles = s.articles ++ article ∷ [];
        },
      )

  -- The id of the entity of that normalized name, or a new one.
  unfoldable pub save_entity :
      (name normalized_name entity_type : String) → I64 → Mut (MemoryStore F) StoreError I64
  save_entity name normalized_name entity_type now s =
      elim (find (λ e. str_eq e.normalized_name normalized_name) (values s.entities)) [
        | some e ↦ (ok e.id, record s { entities = touched e.id now s.entities })
        | none ↦ (
          ok s.next_entity_id,
          record s {
            next_entity_id = add_i64 s.next_entity_id 1;
            entities =
                insert ◌==◌ s.next_entity_id
                  (fresh_entity s.next_entity_id name normalized_name entity_type now) s.entities;
          },
        )
      ]

  unfoldable pub find_entity : I64 → Mut (MemoryStore F) StoreError (Option EntityDetail)
  find_entity id s =
      (ok (Option.map (detail_of s.article_entity_links) (get ◌==◌ id s.entities)), s)

  unfoldable pub link_article : I64 → I64 → F → Mut (MemoryStore F) StoreError (Unit {0})
  link_article article_id entity_id relevance s = (
    ok tt,
    record s { article_entity_links = s.article_entity_links ++ (article_id, entity_id) ∷ [] },
  )

  unfoldable pub list_entities : ℕ → ℕ → Mut (MemoryStore F) StoreError (List EntitySummary)
  list_entities limit offset s = (
    ok (
        take limit (
          drop offset (
            sort_by (λ a b. lt_i64 b.article_count a.article_count)
              (map (summary_of s.article_entity_links) (values s.entities))))),
    s,
  )

  unfoldable pub set_ai_summary : I64 → String → Mut (MemoryStore F) StoreError (Unit {0})
  set_ai_summary article_id summary s =
      if s.fail_summary
      then (err (d1 "injected summary failure"), s)
      else (ok tt, record s { summaries = insert ◌==◌ article_id summary s.summaries })

  unfoldable pub set_raw_content_r2_key :
      I64 → Option String → Mut (MemoryStore F) StoreError (Unit {0})
  set_raw_content_r2_key article_id r2_key s =
      if s.fail_r2_key
      then (err (d1 "injected r2 key failure"), s)
      else (ok tt, record s { r2_keys = insert ◌==◌ article_id r2_key s.r2_keys })

  unfoldable pub active_rule_jsons : Mut (MemoryStore F) StoreError (List String)
  active_rule_jsons s =
      if s.fail_rules then (err (d1 "injected rules failure"), s) else (ok s.rules, s)

module _ {F : Type 0} ⦃fl : Float F⦄ where
  unfoldable pub link_relation : I64 → I64 → String → Mut (MemoryStore F) StoreError (Unit {0})
  link_relation source target rtype s =
      let row : RelationEdge F = record {
        source = source;
        target = target;
        rtype = rtype;
        confidence = fl.ratio 1 1;
        first_seen = stamp;
        last_seen = stamp;
      } in
      (ok tt, record s { entity_relation_edges = s.entity_relation_edges ++ row ∷ [] })
