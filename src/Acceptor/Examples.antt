-- ===== src/Acceptor/Examples.antt =====
-- An example of the acceptor's theorem.
use tmms.Common.{ℕ, ◌≡◌, refl, Option, none, some, List, [], ◌∷◌, ◌==◌}
use tmms.SocketOpt.{AddressText, inet4}
use tmms.TcpConnection.{other}
use tmms.Acceptor.{Acceptor, Accepted, connection, failed, on_read, on_error}
use tmms.Acceptor.Listens.{Listens, Good, arrivals, result, on_read-Listens}

abbrev only : List ℕ → Option ℕ
only [] = none
only (n ∷ []) = some n
only (n ∷ m ∷ ms) = none

-- A stand-in: an address is printed as one character.
abbrev one_character : AddressText
one_character = record {
  ntop4 = λ n. n ∷ [];
  ntop6 = λ n. n ∷ [];
  pton4 = only;
  pton6 = only;
  reads4 = λ n h. refl;
  reads6 = λ n h. refl;
}

abbrev listening : Acceptor
listening = record { fd = some 4; socket_opt = some 4; registered = λ k. k == 4; accepted = [] }

listening-Listens : Listens listening
listening-Listens = record { same_socket = refl; only = λ k. refl }

abbrev answers : List Accepted
answers = connection 5 (inet4 1 80) ∷ connection 6 (inet4 2 80) ∷ failed other ∷ []

no_socket_ends : on_error none listening ≡ none
unfolding on_error
no_socket_ends = refl

on_read-Listens_example :
    Good
      (arrivals one_character answers)
      (result (on_read one_character (some 7) answers listening))
on_read-Listens_example = on_read-Listens one_character 7 answers listening 4 listening-Listens refl
