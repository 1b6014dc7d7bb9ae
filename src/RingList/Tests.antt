-- ===== src/RingList/Tests.antt =====
-- Runs of the circular list, and its theorem at a concrete one.
use cctrl.Prelude.{◌≡◌, refl, List, [], ◌∷◌, ◌==◌, if◌then◌else◌, arith}
use cctrl.RingList.{RingList, lpush, rpush, lpop, rpop, roll}
use cctrl.RingList.Deque.{
  Call, push_front, push_back, pop_front, pop_back, roll_front, Stands, run, run_promised,
  run-run_promised,
}

abbrev two : RingList
two = record {
  num = 2;
  head = 100;
  data_of = λ a. if a == 100 then 1 else 2;
  prev = λ a. if a == 100 then 200 else 100;
  next = λ a. if a == 100 then 200 else 100;
}

two-Stands : Stands two ((100, 1) ∷ (200, 2) ∷ [])
two-Stands = record {
  holds = record {
    circle = (refl, 200, (refl, refl, refl), refl, refl);
    distinct = (((λ e. omega (arith, e)), tt), (tt, tt));
    not_null = ((λ e. omega (arith, e)), ((λ e. omega (arith, e)), tt));
    num_is = refl;
  };
  items = (refl, (refl, tt));
}

abbrev some_calls : List Call
some_calls = push_back 300 3 ∷ roll_front ∷ pop_back ∷ push_front 400 4 ∷ pop_front ∷ pop_front ∷ []

calls_return : (run some_calls two).0 ≡ 0 ∷ 1 ∷ 1 ∷ 0 ∷ 4 ∷ 2 ∷ []
unfolding run lpush rpush lpop rpop roll
calls_return = refl

run-run_promised_example :
    ((run some_calls two).0 ≡ 0 ∷ 1 ∷ 1 ∷ 0 ∷ 4 ∷ 2 ∷ [])
    × Stands (run some_calls two).1 ((300, 3) ∷ [])
unfolding run_promised
run-run_promised_example = run-run_promised some_calls two ((100, 1) ∷ (200, 2) ∷ []) two-Stands (
  ((λ e. omega (arith, e)), ((λ e. omega (arith, e)), ((λ e. omega (arith, e)), tt)), omega arith),
  (
    tt,
    (
      tt,
      (
        (
          (λ e. omega (arith, e)),
          ((λ e. omega (arith, e)), ((λ e. omega (arith, e)), tt)),
          omega arith,
        ),
        (tt, (tt, tt)),
      ),
    ),
  ),
)
