-- ===== src/Uart.antt =====
-- vibeos/lib.c: the queue of received characters, filled by the interrupt handler and emptied by
-- the terminal. It keeps the newest 1023 characters.
--
-- A `char` is a byte; the device's registers are what each read of them returns.
pub mod Queue
pub mod Refine
mod Tests
use vibeos_fpga.Common.{
  ℕ, ◌+◌, ◌%◌, Bool, Option, none, some, List, [], ◌∷◌, ◌==◌, if◌then◌else◌, u8, u16, get_or, set,
}

-- UART_INPUT_QUEUE_SIZE
abbrev pub queue_size : ℕ
queue_size = 1024

-- uart_input_head, uart_input_tail and uart_input_queue
pub record Uart : Type 0 where
  pub head : ℕ
  pub tail : ℕ
  pub queue : List ℕ

abbrev pub next_index : ℕ → ℕ
next_index i = u16 ((i + 1) % queue_size)

-- uart_input_push
pub push : ℕ → Uart → Uart
push c u =
    let next = next_index u.tail in
    let head = if next == u.head then next_index u.head else u.head in
    record { head = head; tail = next; queue = set u.queue u.tail (u8 c) }

-- uart_input_pop; `none` is -1.
pub pop : Uart → Option ℕ × Uart
pop u =
    if u.head == u.tail
    then (none, u)
    else (some (u8 (get_or u.queue u.head 0)), record u { head = next_index u.head })

-- One look at the device: whether LSR shows a character, and what two reads of RHR return.
pub record Reading : Type 0 where
  pub ready : Bool
  pub first : ℕ
  pub second : ℕ

-- lib_getc; `none` is -1.
pub lib_getc : Reading → Option ℕ
lib_getc r = if r.ready then some (if r.first == b'\r' then b'\n' else r.second) else none

-- lib_isr over the looks that it takes: it stops at the first that shows no character.
pub lib_isr : List Reading → Uart → Uart
lib_isr [] u = u
lib_isr (r ∷ rs) u = elim (lib_getc r) [ none ↦ u | some c ↦ lib_isr rs (push c u) ]
