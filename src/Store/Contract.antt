-- ===== src/Store/Contract.antt =====
-- What a `BookStorage` promises: it acts as a map from ids to books, as far as its calls succeed.
-- After a failed write the map is the old or the new one, since the reply may be what was lost.
use demo_redis.Prelude.{String, ◌≡◌, ◌⊎◌, none, some, List}
use demo_redis.Book.{Book, book_not_found}
use demo_redis.Context.{Context}
use demo_redis.Store.{BookStorage, Books, put, remove}
use mathlib.Core.List.{Memᴰ}

-- The books of a map are those of the list. How often a book is listed is not said.
pub record Lists (m : Books) (books : List Book) : Type 0 where
  pub sound : (b : Book) → Memᴰ b books → (id : String) × (m id ≡ some b)
  pub complete : (id : String) (b : Book) → m id ≡ some b → Memᴰ b books

pub record Implements {S : Type 0} (st : BookStorage S) (view : S → Books) : Type 0 where
  pub add_ok :
      (ctx : Context) (id : String) (b : Book) (s : S)
      → (st.add ctx id b s).0 ≡ none
      → view (st.add ctx id b s).1 ≡ put id b (view s)
  pub add_any :
      (ctx : Context) (id : String) (b : Book) (s : S)
      → (view (st.add ctx id b s).1 ≡ view s) ⊎ (view (st.add ctx id b s).1 ≡ put id b (view s))
  pub get_one_keeps : (ctx : Context) (id : String) (s : S) → view (st.get_one ctx id s).1 ≡ view s
  pub get_one_ok :
      (ctx : Context) (id : String) (s : S)
      → (st.get_one ctx id s).0.1 ≡ none
      → view s id ≡ some (st.get_one ctx id s).0.0
  pub get_one_missing :
      (ctx : Context) (id : String) (s : S)
      → (st.get_one ctx id s).0.1 ≡ some book_not_found
      → view s id ≡ none
  pub delete_ok :
      (ctx : Context) (id : String) (s : S)
      → (st.delete ctx id s).0 ≡ none
      → view (st.delete ctx id s).1 ≡ remove id (view s)
  pub delete_any :
      (ctx : Context) (id : String) (s : S)
      → (view (st.delete ctx id s).1 ≡ view s) ⊎ (view (st.delete ctx id s).1 ≡ remove id (view s))
  pub update_ok :
      (ctx : Context) (id : String) (b : Book) (s : S)
      → (st.update ctx id b s).0.1 ≡ none
      → view (st.update ctx id b s).1 ≡ put id b (view s)
  pub update_any :
      (ctx : Context) (id : String) (b : Book) (s : S)
      → (view (st.update ctx id b s).1 ≡ view s)
        ⊎ (view (st.update ctx id b s).1 ≡ put id b (view s))
  pub update_echo :
      (ctx : Context) (id : String) (b : Book) (s : S) → (st.update ctx id b s).0.0 ≡ b
  pub get_all_keeps : (ctx : Context) (s : S) → view (st.get_all ctx s).1 ≡ view s
  pub get_all_ok :
      (ctx : Context) (s : S)
      → (st.get_all ctx s).0.1 ≡ none
      → Lists (view s) (st.get_all ctx s).0.0
