-- ===== src/Buffer/Making.antt =====
-- The constructor of `Buffer` on sizes that fit: an empty buffer that satisfies the invariant.
use native.Mathlib.Nat.{mod-eq_of_lt}
use yeyj_tcp_server.Base.{
  ℕ, ◌%◌, ◌≤◌, ◌≡◌, refl, arith, true, leb, pos, length-replicate, assert, Returns, replicate,
}
use yeyj_tcp_server.Buffer.Ring.{IsValid, max_bytes}
use yeyj_tcp_server.Buffer.{Buffer, new}

-- What the constructor makes: nothing is in it.
pub record IsFresh (largest : ℕ) (factor : ℕ → ℕ) (b : Buffer) : Type 0 where
  pub valid : IsValid b
  pub nothing : b.count ≡ 0
  pub largest_size : b.max_size ≡ largest
  pub its_factor : b.grow_factor ≡ factor

-- With a first size of 2 or more, not above the largest, which is at most 1 GiB, the constructor
-- gives a valid buffer without contents.
pub new-IsFresh :
    (init largest : ℕ) (factor : ℕ → ℕ)
    → 2 ≤ init
    → init ≤ largest
    → largest ≤ max_bytes
    → Returns (new init largest factor) (IsFresh largest factor)
unfolding new assert
new-IsFresh init largest factor some_size le small =
    let t : leb init largest ≡ true = ground arith in
    let b : Buffer = record {
      bytes = replicate init 0;
      current_size = init;
      max_size = largest;
      begin = 0;
      end = pos 0;
      count = 0;
      grow_factor = factor;
    } in
    (
      b,
      rw t,
      record {
        valid = record {
          storage = length-replicate init 0;
          growable = some_size;
          bounded = le;
          small = small;
          begin_in = omega arith;
          count_in = omega arith;
          end_at = (let none_in : 0 % init ≡ 0 = mod-eq_of_lt (omega arith) in rw none_in);
        };
        nothing = refl;
        largest_size = refl;
        its_factor = refl;
      },
    )
