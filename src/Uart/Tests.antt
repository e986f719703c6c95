-- ===== src/Uart/Tests.antt =====
-- The queue with two characters that go round the end, and a full one.
use vibeos_fpga.Common.{
  ℕ, zero, suc, ◌≡◌, refl, List, [], ◌∷◌, arith, get_or, replicate, true, false, u8, ◌<◌,
}
use vibeos_fpga.Uart.{Uart, Reading, push, pop, lib_isr, lib_getc}
use vibeos_fpga.Uart.Queue
use vibeos_fpga.Uart.Refine.{
  IsValid, contents, push-IsValid, pop-IsValid, contents-push, contents-pop, contents-lib_isr,
  push_all, Received,
}

abbrev fresh : Uart
fresh = record { head = 1023; tail = 1023; queue = replicate 1024 0 }

fresh-IsValid : IsValid fresh
fresh-IsValid = record {
  head_in = omega arith;
  tail_in = omega arith;
  sized = refl;
  bytes = λ i. zeros 1024 i;
}
  where
    zeros : (n i : ℕ) → get_or (replicate n 0) i 0 < 256
    zeros zero i = omega arith
    zeros (suc n) zero = omega arith
    zeros (suc n) (suc i) = zeros n i

abbrev two : Uart
two = push b'b' (push b'a' fresh)

two-IsValid : IsValid two
two-IsValid = push-IsValid b'b' (push-IsValid b'a' fresh-IsValid)

one-IsValid : IsValid (pop two).1
one-IsValid = pop-IsValid two-IsValid

contents-push_example : contents (push b'c' two) ≡ Queue.push (u8 b'c') (contents two)
contents-push_example = contents-push b'c' two two-IsValid

contents-pop_example : ((pop two).0, contents (pop two).1) ≡ Queue.pop (contents two)
contents-pop_example = contents-pop two two-IsValid

abbrev readings : List Reading
readings =
    record { ready = true; first = b'x'; second = b'x' }
    ∷ record { ready = true; first = b'\r'; second = 0 }
    ∷ record { ready = false; first = 0; second = 0 }
    ∷ []

contents-lib_isr_example :
    (cs : List ℕ) × Received readings cs
    × (contents (lib_isr readings two) ≡ push_all cs (contents two))
    × IsValid (lib_isr readings two)
contents-lib_isr_example = contents-lib_isr readings two two-IsValid

lib_isr_test : contents (lib_isr readings fresh) ≡ b'x' ∷ b'\n' ∷ []
unfolding lib_isr lib_getc push
lib_isr_test = refl
