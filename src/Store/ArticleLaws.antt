-- ===== src/Store/ArticleLaws.antt =====
-- crates/store/src/memory/backend.rs, `ArticleRepository`: an article is stored once for its feed and guid.
use sulix_intelligence.Prelude.{
  ◌≡◌, refl, ◌∙◌, arith, List, [], ◌∷◌, ◌++◌, none, true, false, any, ok, eq_iff, Bool,
}
use sulix_intelligence.Store.ContentRows.{NewArticle}
use sulix_intelligence.Store.Memory.{MemoryStore}
use sulix_intelligence.Store.Memory.Content.{is_duplicate, save_article}

-- No two articles have the same feed and guid.
abbrev pub UniqueArticles : List NewArticle → Type 0
UniqueArticles [] = Unit
UniqueArticles (a ∷ rest) = (any (is_duplicate a) rest ≡ false) × UniqueArticles rest

is_duplicate_refl : (a : NewArticle) → is_duplicate a a ≡ true
is_duplicate_refl a = ground (arith, eq_iff a.guid a.guid)

is_duplicate_sym : (a b : NewArticle) → is_duplicate a b ≡ false → is_duplicate b a ≡ false
is_duplicate_sym a b h = ground (arith, eq_iff a.guid b.guid, eq_iff b.guid a.guid)

any-append_one :
    {A : Type 0} → (p : A → Bool) (xs : List A) (x : A) → p x ≡ true → any p (xs ++ x ∷ []) ≡ true
any-append_one p [] x h = ground arith
any-append_one p (y ∷ xs) x h = ground (arith, any-append_one p xs x h)

any-append_false :
    {A : Type 0}
    → (p : A → Bool) (xs : List A) (x : A) → any p xs ≡ false
    → p x ≡ false
    → any p (xs ++ x ∷ []) ≡ false
any-append_false p [] x h k = ground arith
any-append_false p (y ∷ xs) x h k = ground (arith, any-append_false p xs x)

append-UniqueArticles :
    (a : NewArticle) (rest : List NewArticle)
    → UniqueArticles rest
    → any (is_duplicate a) rest ≡ false
    → UniqueArticles (rest ++ a ∷ [])
append-UniqueArticles a [] u h = (refl, tt)
append-UniqueArticles a (b ∷ rest) u h = (
  any-append_false (is_duplicate b) rest a u.0 (is_duplicate_sym a b (ground arith)),
  append-UniqueArticles a rest u.1 (ground arith),
)

module _ {F : Type 0} where
  -- Saving an article into a store without two articles of one feed and guid leaves a store without them,
  -- whatever the branch.
  pub save_article-UniqueArticles :
      (a : NewArticle) (s : MemoryStore F)
      → UniqueArticles s.articles
      → UniqueArticles (save_article a s).1.articles
  unfolding save_article
  save_article-UniqueArticles a s u = ground (arith, append-UniqueArticles a s.articles u)

  save_article-old :
      (a : NewArticle) (s : MemoryStore F)
      → s.fail_insert ≡ false
      → any (is_duplicate a) s.articles ≡ true
      → save_article a s ≡ (ok none, s)
  unfolding save_article
  save_article-old a s h old = ground arith

  saved-any :
      (a : NewArticle) (s : MemoryStore F)
      → s.fail_insert ≡ false
      → any (is_duplicate a) (save_article a s).1.articles ≡ true
  unfolding save_article
  saved-any a s h =
      ground (arith, any-append_one (is_duplicate a) s.articles a (is_duplicate_refl a))

  saved-fail_insert :
      (a : NewArticle) (s : MemoryStore F) → (save_article a s).1.fail_insert ≡ s.fail_insert
  unfolding save_article
  saved-fail_insert a s = ground arith

  -- Where insertions are not set to fail, an article that was just saved is not stored again: the second
  -- save returns no id and changes nothing.
  pub save_article-again :
      (a : NewArticle) (s : MemoryStore F)
      → s.fail_insert ≡ false
      → save_article a (save_article a s).1 ≡ (ok none, (save_article a s).1)
  save_article-again a s h =
      save_article-old a (save_article a s).1 (saved-fail_insert a s ∙ h) (saved-any a s h)
