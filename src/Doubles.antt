-- ===== src/Doubles.antt =====
-- tests.mocks.go: the test doubles, which answer what a test sets. A function that a test leaves nil is
-- one that is not called there.
use demo_redis.Prelude.{String, Bool, true, Option, some, List, Action, pure}
use demo_redis.Book.{Book, Error}
use demo_redis.Context.{Context}
use demo_redis.Clock.{Clocker, Time, zero_time}
use demo_redis.Store.{BookStorage}
use demo_redis.Queue.{Queuer}
use demo_redis.Ids.{UidHandler}
use Prim.Native.String

-- `MockBookStorage`
pub record MockBookStorage (S : Type 0) : Type 0 where
  pub add_func : Context → String → Book → Action S (Option Error)
  pub get_one_func : Context → String → Action S (Book × Option Error)
  pub delete_func : Context → String → Action S (Option Error)
  pub update_func : Context → String → Book → Action S (Book × Option Error)
  pub get_all_func : Context → Action S (List Book × Option Error)
  pub delete_all_func : Context → Action S (Option Error)

-- The methods of `MockBookStorage`; its `DeleteAll` needs no rounds.
abbrev pub mock_book_storage : {S : Type 0} → MockBookStorage S → BookStorage S
mock_book_storage m = record {
  add = λ ctx id book. m.add_func ctx id book;
  get_one = λ ctx id. m.get_one_func ctx id;
  delete = λ ctx id. m.delete_func ctx id;
  update = λ ctx id book. m.update_func ctx id book;
  get_all = λ ctx. m.get_all_func ctx;
  delete_all = λ rounds ctx s. let (err, s') = m.delete_all_func ctx s in (some err, s');
}

-- `MockClocker`
pub record MockClocker : Type 0 where
  pub mock_now : Time
  pub mock_zero : Time

-- `NewMockClocker`: the start of the 2nd of July 2023, in nanoseconds since the start of the year 1
abbrev pub new_mock_clocker : MockClocker
new_mock_clocker = record {
  mock_now = record { nanos = 63823852800000000000; utc = true };
  mock_zero = zero_time;
}

-- `MockClocker.Now` and `MockClocker.Zero`
abbrev pub mock_clocker : {E : Type 0} → MockClocker → Clocker E
mock_clocker mck = record { now = pure mck.mock_now; zero = mck.mock_zero }

-- `MockUIDHandler`, with `NewMockUIDHandler`
pub record MockUidHandler : Type 0 where
  pub mocked_uid : String
  pub valid : Bool

abbrev pub new_mock_uid_handler : String → Bool → MockUidHandler
new_mock_uid_handler id valid = record { mocked_uid = id; valid = valid }

-- `MockUIDHandler.Generate` and `MockUIDHandler.IsValid`
abbrev pub mock_uid_handler : {E : Type 0} → MockUidHandler → UidHandler E
mock_uid_handler muid = record {
  generate = λ prefix. pure (String.◌++◌ prefix (String.◌++◌ ":" muid.mocked_uid));
  is_valid = λ _ _. muid.valid;
}

-- `MockQueuer`
pub record MockQueuer (S : Type 0) : Type 0 where
  pub push_func : Context → String → Book → Action S (Option Error)
  pub pop_func : Context → List String → Action S (String × Book × Option Error)

-- the methods of `MockQueuer`
abbrev pub mock_queuer : {S : Type 0} → MockQueuer S → Queuer S
mock_queuer m = record {
  push = λ ctx qid book. m.push_func ctx qid book;
  pop = λ ctx qids. m.pop_func ctx qids;
}

-- `MockConsumer`, which is no `Consumer`: its `Consume` returns no error.
pub record MockConsumer (W : Type 0) : Type 0 where
  pub consume_func : Context → List String → Action W (Unit {0})

-- `MockConsumer.Consume`
abbrev pub mock_consume :
    {W : Type 0} → MockConsumer W → Context → List String → Action W (Unit {0})
mock_consume m ctx qids = m.consume_func ctx qids
