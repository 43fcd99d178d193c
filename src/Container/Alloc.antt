-- ===== src/Container/Alloc.antt =====
-- `mod impl_alloc` of micropb/src/container.rs: the standard library's `Vec` and `String`.
use Prim.Native.Nat.{max}
use micropb.Prelude.{ℕ, ◌+◌, ◌-◌, ◌≡◌, refl, sym, arith, true}
use micropb.Prelude.{List, [], ◌∷◌, ◌++◌, length, length-append, take, take_all, le→leb, none}
use mathlib.Core.Bool.{false≢true}
use micropb.Monad.{ok}
use micropb.Encode.Output.{holds}
use micropb.Container.{PbContainer, PbVec, PbString, IsStorage, IsVec}

-- A `Vec`: its items, what was written to the slots behind them, and how many more slots there are
-- than items at least. `reserve` gives at least the slots asked for.
pub record Vec (T : Type 0) : Type 0 where
  pub items : List T
  pub slots : List T
  pub spare : ℕ

module _ {T : Type 0} where
  unfoldable pub vec_container : PbContainer (Vec T)
  vec_container = record {
    pb_set_len = λ s len. record {
      items = take len (s.items ++ s.slots);
      slots = [];
      spare = s.spare - (len - length s.items);
    };
    pb_reserve = λ s additional. record s { spare = max s.spare additional };
    pb_clear = λ s. record { items = []; slots = []; spare = length s.items + s.spare };
  }

  unfoldable pub vec : PbVec (Vec T) T
  vec = record {
    container = vec_container;
    deref = λ s. s.items;
    pb_push =
        λ s x. (ok tt, record { items = s.items ++ (x ∷ []); slots = []; spare = s.spare - 1 });
    pb_spare_cap = λ s. (s.spare, λ xs. record s { slots = xs });
    pb_from_slice = λ xs. ok (record { items = xs; slots = []; spare = 0 });
  }

  storage_law :
      IsStorage vec_container (λ s. s.items) (λ s. (s.spare, λ xs. record s { slots = xs }))
  unfolding vec_container
  storage_law = record {
    capacity = none;
    clear = λ s. refl;
    reserve = λ s n. refl;
    room = λ s n. le→leb n (max s.spare n) (omega arith);
    unseen = λ s xs. refl;
    fill = λ s xs h. take_all _ _ (omega (arith, length-append s.items xs));
  }

  pub vec-IsVec : IsVec vec
  unfolding vec storage_law
  vec-IsVec = record {
    storage = storage_law;
    pushes = λ s x h. (refl, refl);
    full = λ s x h. absurd (false≢true (sym h));
  }

-- A `String` is a `Vec` of bytes that are UTF-8.
unfoldable pub string : PbString (Vec ℕ)
unfolding vec_container
string = record {
  container = vec_container;
  deref = λ s. s.items;
  pb_spare_cap = λ s. (s.spare, λ xs. record s { slots = xs });
  pb_from_str = λ xs. ok (record { items = xs; slots = []; spare = 0 });
}

pub string-IsStorage : IsStorage string.container string.deref string.pb_spare_cap
unfolding string
string-IsStorage = storage_law

-- A `Vec` and a `String` hold any number of items.
pub vec_holds : (T : Type 0) (n : ℕ) → holds (vec-IsVec {T = T}).storage.capacity n ≡ true
unfolding vec-IsVec storage_law
vec_holds T n = refl

pub string_holds : (n : ℕ) → holds string-IsStorage.capacity n ≡ true
unfolding string-IsStorage storage_law
string_holds n = refl
