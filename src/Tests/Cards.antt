-- ===== src/Tests/Cards.antt =====
-- Cards that odoo_sheller/recipe.py parses.
use odoo_sheller.Recipe.Launching.Shape
use odoo_sheller.Transport.Destinations
use odoo_sheller.Recipe.Safety.Accepted
use odoo_sheller.Common.{
  String, ◌≡◌, refl, subst, true, false, Option, none, some, List, [], ◌∷◌, ◌==◌, string_eq, nat_eq,
  starts_with, split_on,
}
use odoo_sheller.Recipe.{Access, Launch, become_argv, destination, quote_all, ssh_argv}
use odoo_sheller.Recipe.Words.{
  ok, Python, is_ssh_name, is_user, is_number, port_of, user_of, key_of, is_operator, split_text,
}
use odoo_sheller.Recipe.Options.{parse_option}
use odoo_sheller.Recipe.Parse.{
  sudo_step, sudo_loop, parse_become, parse_destination, access_loop, single, distinct, options_of,
  assemble, access_of_tokens, parse_access,
}
use odoo_sheller.Transport.{ssh, Target, is_remote}
use odoo_sheller.Transport.Lines.{Machine, signal_command}

-- A machine on which a text without quotes is split at its spaces and every key file exists.
abbrev pub small_python : Python
small_python = record {
  lex = λ text. some (split_on b' ' text);
  is_space = λ c. c == b' ';
  lower = λ text. text;
  decimal = λ n. elim (n == 22) [ true ↦ "22" | false ↦ "0" ];
  expanduser = λ path. path;
  isabs = λ path. starts_with path "/";
  is_file = λ path. true;
}

abbrev card_line : String
card_line = "ssh -p 22 -i /k odoo@shop sudo -n -u odoo"

abbrev card : Access
card = record {
  options = "-i" ∷ "/k" ∷ "-p" ∷ "22" ∷ [];
  user = some "odoo";
  host = "shop";
  port = some 22;
  keys = "/k" ∷ [];
  jump = none;
  become = some (record { user = some "odoo"; home = false });
}

parse_access-IsSafe_example : Accepted.IsSafe small_python card
unfolding parse_access access_of_tokens access_loop parse_option assemble parse_destination
    split_text is_operator single distinct options_of parse_become sudo_loop sudo_step user_of
    port_of key_of is_number is_user is_ssh_name
parse_access-IsSafe_example = Accepted.parse_access-IsSafe small_python card_line card refl

abbrev launch_line : String
launch_line = "/venv/bin/python /opt/odoo-bin shell -c /etc/odoo.conf -d acme"

abbrev launch : Launch
launch = record {
  argv =
      "/venv/bin/python" ∷ "/opt/odoo-bin" ∷ "shell" ∷ "-c" ∷ "/etc/odoo.conf" ∷ "-d" ∷ "acme" ∷ [];
  database = some "acme";
  config = some "/etc/odoo.conf";
  odoo_bin = "/opt/odoo-bin";
  http_off = false;
  http_port = none;
}

abbrev machine : Machine
machine = record {
  docker_bin = "docker";
  ssh_opts = "-T" ∷ [];
  quote = λ text. text;
  decimal = small_python.decimal;
  stripped_lines = λ text. text ∷ [];
}

abbrev server : Target
server = record {
  kind = ssh;
  container = none;
  database = some "acme";
  odoo_bin = none;
  build = none;
  host = some "shop";
  stage = some "production";
  label = some "acme prod";
  access = some card;
  launch = some launch;
  card_id = some "ssh-1";
}

abbrev interrupt_line : List String
interrupt_line =
    "ssh" ∷ "-T" ∷ "-i" ∷ "/k" ∷ "-p" ∷ "22" ∷ "--" ∷ "odoo@shop" ∷ "sudo -n -u odoo kill -INT 22"
    ∷ []

-- What the theorem asks of the access of a target.
abbrev Reads : Option Access → Type 0
Reads none = Unit
Reads (some a) = parse_access small_python card_line ≡ ok a

signal_command-IsSshLine_example : Destinations.IsSshLine small_python machine interrupt_line
unfolding parse_access access_of_tokens access_loop parse_option assemble parse_destination
    split_text is_operator single distinct options_of parse_become sudo_loop sudo_step user_of
    port_of key_of is_number is_user is_ssh_name signal_command is_remote ssh_argv destination
    quote_all become_argv
signal_command-IsSshLine_example =
    Destinations.signal_command-IsSshLine small_python machine server 22 "INT" card_line
      interrupt_line (λ a e. subst Reads e refl) refl refl
