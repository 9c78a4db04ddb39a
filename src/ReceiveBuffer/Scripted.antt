-- ===== src/ReceiveBuffer/Scripted.antt =====
-- A connection of core/buffer.cpp that delivers the bytes of a list, and one that delivers none.
use rabbitstreamer.Prelude.{
  ◌∙◌, ℕ, ◌≡◌, refl, sym, ap, take-append-drop, List, [], ◌++◌, length, length-take,
  length-replicate, take, drop, replicate, arith,
}
use rabbitstreamer.ReceiveBuffer.{StRead, received, timed_out, failed, Connection}
use rabbitstreamer.ReceiveBuffer.Supply.{Delivers}

abbrev pub received_or : List ℕ → StRead → List ℕ
received_or w (received bs) = bs
received_or w timed_out = w
received_or w failed = w

-- Which of the results it is.
abbrev pub outcome : StRead → ℕ
outcome (received bs) = 0
outcome timed_out = 1
outcome failed = 2

-- It hands out as many bytes as it is asked for, as long as there are that many.
abbrev pub scripted : Connection (List ℕ)
scripted = record {
  st_read = λ w n. (received (take n w), drop n w);
  pending = λ w. w;
  no_more = λ w n bs w' e. omega (arith, length-take n w, ap (λ p. length (received_or [] p.0)) e);
  in_order = λ w n bs w' e. sym (take-append-drop n w) ∙ ap (λ p. received_or [] p.0 ++ p.1) e;
  kept_timeout = λ w n w' e. absurd (omega (arith, ap (λ (p : StRead × List ℕ). outcome p.0) e));
  kept_failure = λ w n w' e. absurd (omega (arith, ap (λ (p : StRead × List ℕ). outcome p.0) e));
}

pub scripted-Delivers : Delivers scripted
scripted-Delivers w n pos more = (take n w, omega (arith, length-take n w), refl)

abbrev pub zeros : ℕ → List ℕ
zeros n = replicate n 0

pub length-zeros : (n : ℕ) → length (zeros n) ≡ n
length-zeros n = length-replicate n 0

-- Every read runs into its time limit.
abbrev pub silent : Connection (List ℕ)
silent = record {
  st_read = λ w n. (timed_out, w);
  pending = λ w. w;
  no_more = λ w n bs w' e. absurd (omega (arith, ap (λ (p : StRead × List ℕ). outcome p.0) e));
  in_order = λ w n bs w' e. absurd (omega (arith, ap (λ (p : StRead × List ℕ). outcome p.0) e));
  kept_timeout = λ w n w' e. ap (λ (p : StRead × List ℕ). p.1) e;
  kept_failure = λ w n w' e. ap (λ (p : StRead × List ℕ). p.1) e;
}
