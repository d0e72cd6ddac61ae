-- ===== src/Container/Members.antt =====
-- Who is in which table, and what leaving and joining a table does to that.
use streaming_protocol_lt.Base.{
  ℕ, ◌≡◌, refl, String, Bool, true, false, not, ◌&&◌, ◌||◌, List, [], ◌∷◌, ◌==◌, eqb, eq_iff,
  if◌then◌else◌, arith,
}
use streaming_protocol_lt.Container.{Table}
use streaming_protocol_lt.Container.Maps.{
  find_text, find_text-put_text, find_text-erase_text, has, has-insert, has-remove,
}
use streaming_protocol_lt.Container.Meta.{
  Tables, table_or_new, is_empty, without_member, with_member, store_table, leave_table, join_table,
}

-- The number of the time signal of a table, 0 for none.
unfoldable pub time_of : String → Tables → ℕ
time_of id tables = (table_or_new (find_text id tables)).time_signal_number

unfoldable pub is_data : String → ℕ → Tables → Bool
is_data id n tables = has n (table_or_new (find_text id tables)).data_signal_numbers

is_empty-has : (n : ℕ) (s : List ℕ) → is_empty s ≡ true → has n s ≡ false
unfolding has
is_empty-has n [] h = refl
is_empty-has n (k ∷ s) h = cc

-- A table that is empty and removed reads as an empty one.
time_of-store_table :
    (id i : String) (t : Table) (tables : Tables)
    → time_of i (store_table id t tables)
      ≡ (if id == i then t.time_signal_number else time_of i tables)
unfolding time_of store_table
time_of-store_table id i t tables =
    ground (arith, find_text-put_text id i t tables, find_text-erase_text id i tables)

is_data-store_table :
    (id i : String) (n : ℕ) (t : Table) (tables : Tables)
    → is_data i n (store_table id t tables)
      ≡ (if id == i then has n t.data_signal_numbers else is_data i n tables)
unfolding is_data store_table has
is_data-store_table id i n t tables = ground (
  arith,
  find_text-put_text id i t tables,
  find_text-erase_text id i tables,
  is_empty-has n t.data_signal_numbers,
)

pub time_of-join_table :
    (n : ℕ) (time : Bool) (id i : String) (tables : Tables)
    → time_of i (join_table n time id tables) ≡ (if time && (id == i) then n else time_of i tables)
unfolding time_of join_table
time_of-join_table n time id i tables = ground (
  arith,
  find_text-put_text id i (with_member n time (table_or_new (find_text id tables))) tables,
  eq_iff id i,
)

pub is_data-join_table :
    (n k : ℕ) (time : Bool) (id i : String) (tables : Tables)
    → is_data i k (join_table n time id tables)
      ≡ (if not time && (id == i) then eqb n k || is_data i k tables else is_data i k tables)
unfolding is_data join_table
is_data-join_table n k time id i tables = ground (
  arith,
  find_text-put_text id i (with_member n time (table_or_new (find_text id tables))) tables,
  eq_iff id i,
  has-insert n k (table_or_new (find_text id tables)).data_signal_numbers,
)

pub time_of-leave_table :
    (n : ℕ) (time : Bool) (id i : String) (tables : Tables)
    → time_of i (leave_table n time id tables) ≡ (if time && (id == i) then 0 else time_of i tables)
unfolding time_of leave_table
time_of-leave_table n time id i tables = ground (
  arith,
  find_text-put_text id i (without_member n time (table_or_new (find_text id tables))) tables,
  find_text-erase_text id i tables,
  eq_iff id i,
)

pub is_data-leave_table :
    (n k : ℕ) (time : Bool) (id i : String) (tables : Tables)
    → is_data i k (leave_table n time id tables)
      ≡ (if not time && (id == i) && eqb n k then false else is_data i k tables)
unfolding is_data leave_table
is_data-leave_table n k time id i tables = ground (
  arith,
  find_text-put_text id i (without_member n time (table_or_new (find_text id tables))) tables,
  find_text-erase_text id i tables,
  eq_iff id i,
  has-remove n k (table_or_new (find_text id tables)).data_signal_numbers,
  is_empty-has k (without_member n time (table_or_new (find_text id tables))).data_signal_numbers,
  nothing k,
)
  where
    nothing : (k : ℕ) → has k [] ≡ false
    nothing k = unfold has in refl
