-- ===== src/Lib.antt =====
-- odoo-sheller: a daemon that keeps Odoo shells open and hands them to people and to agents.
--
-- A session (odoo_sheller/session.py) is one Odoo shell behind a pipe: clients call it, the process
-- answers with frames, and one asyncio loop runs both. A target (odoo_sheller/transport.py) says
-- where the shell runs; for a server reached by ssh it is made of a card, two lines a person wrote,
-- that odoo_sheller/recipe.py parses; odoo_sheller/targets.py keeps the cards. The session decides
-- who may type, and who may commit and where; a human may open a local container to the commits of
-- all agents (odoo_sheller/agent_commit.py), and odoo_sheller/registry.py carries that to the open
-- sessions and carries the sessions' events to the sockets. What a session did is a journal, a file
-- that odoo_sheller/journal.py writes, finds, lists and turns into a transcript. Everyone reaches
-- the sessions through the routes of odoo_sheller/api.py, behind odoo_sheller/guard.py; an agent does
-- so by the tools of odoo_sheller/mcp.py, which hold its keys. What a container or a server is, before
-- a session is opened on it, odoo_sheller/discovery.py asks of it; inside, odoo_sheller/bootstrap.py
-- answers the frames.
--
-- The files, by the part of the program they model:
--   Common      Python's lists, texts, dictionaries and tests, over the native numbers.
--   Protocol    odoo_sheller/protocol.py: `spec_of`.
--   Rules       odoo_sheller/rules/__init__.py: `major_of`.
--   Transport   odoo_sheller/transport.py: `Target` and what is asked of it. Lines: `build_command`
--               and `signal_command`. Destinations: what they pass to ssh.
--   Recipe      odoo_sheller/recipe.py and names.py. Words: single words, and `_split`. Options:
--               the ssh options. Parse: `parse_access`. Launching: `parse_launch`. Safety: what an
--               accepted line can hold.
--   Session     odoo_sheller/session.py. Records: frames, journal entries and events. Rights: the
--               owner, the keys and the right to commit. Window: `_StderrWindow`. Machine: the
--               fields, `_set_state`, `_ensure_acceptable`, `_request`. Reader: `_read_frames`,
--               `_settle_abandoned`, `_die`. Commands: `execute`, `run_test`, `commit`, `rollback`
--               up to their await. Endings: how they end, `start`, `close`, `kill`. Steps:
--               everything that may happen next, in any order. Core and Ledger: the parts of a
--               session's state that the proofs follow.
--   Targets     odoo_sheller/targets.py: the cards of odoo.sh builds and of ssh servers. Store: the
--               operations of `TargetStore` as functions on the file. Tidy, Keeping: how the cards
--               stay apart.
--   AgentCommit odoo_sheller/agent_commit.py: the switch file and its operations.
--   Registry    odoo_sheller/registry.py: `set_agent_commit` over the sessions, and the queues of
--               the sockets. Opening: the target of `open`. Ids: `new_session_id`. Starting: how
--               a session is announced, and how it fails. Closing: `close`, `subscribe`,
--               `_autoclose`. Sweep, Queues: what is shown of the switch and of the queues.
--   Journal     odoo_sheller/journal.py: the lines of a journal, `session_meta`,
--               `target_from_records`. Feed: `feed_from_records`. Markdown and Text: `to_markdown`,
--               as blocks and as the text of a block. Files: the files' names, `find_journal`.
--               Listing: `list_journals` with its cache, `delete_journal`. Following, Numbers: the
--               feed and the transcript against readings that keep no state.
--   TestLog     odoo_sheller/session.py: `_note_test_line` and what it calls. Reader: one line.
--               Filters: `hoot_filters`. Hash: `hoot_hash`. Bounded: what is kept of a run's log.
--               Result: `_run_result`.
--   JsTests     odoo_sheller/js_tests.py: `capability`, `listing`, `skip_reason`.
--   Guard       odoo_sheller/guard.py: `refusal`.
--   Api         odoo_sheller/api.py: the guards of the routes on one session, `set_owner`,
--               `set_policy`, `translate`. Opening: the guard of `open_session`. Agents: what comes
--               without the admin key.
--   Mcp         odoo_sheller/mcp.py: `_call`, `_default_session`, the clips. Tools: the tools that
--               open, take over, commit and close sessions; Held, Keys, Taking: the
--               keys held and sent.
--               Results: the answer to a command or a run. Past: its entry in a history. Runs:
--               `os_run_test`, `os_test_result`. Pages: `_journal_page`.
--   Discovery   odoo_sheller/discovery.py: the gates on a version, the last line of json. Reading:
--               what a script printed. Probing: `probe_ssh`. Facts, Gates: what is read back, and when
--               a server is usable.
--   Bootstrap   odoo_sheller/bootstrap.py: the frames, and where an interrupt raises. Loop: the
--               commands and `_os_main`. Serving: what the loop answers.
--   Tests       concrete sessions, cards, switches, queues, journals, logs, requests, tools,
--               probes and a small Odoo.
--
-- How code becomes definitions. A handler that awaits is one function for each stretch between two
-- awaits, and Session/Steps.antt lets any stretch that is due run next; so the interleavings of the
-- asyncio loop are the sequences of steps. A caller suspended in `_request` is a `Task`, named by the
-- id of its frame; its phase is the state of its future. Exceptions are values. Frames and journal
-- entries are records of the keys that the session itself reads or writes. The loop
-- of `new_session_id` runs on fuel, which is enough as soon as one draw within it may be an id; that of
-- `os_test_result` too, where one look more than there are polls in the budget of a call is enough: 21
-- where the environment leaves it at 40 seconds. All other loops are structural on a list or a text.
-- A file that cannot be written, a journal that takes no line, an exception that cannot be shown and
-- an answer that cannot be encoded are arguments of the definitions that meet them, in Registry,
-- AgentCommit and Bootstrap; elsewhere a journal is taken to be written.
-- Where an object is shared, as an entry of the feed
-- is by the list and the dictionary of pending commands, one of the two holds its place in the other.
--
-- From outside, and so parameters: the lexer of `shlex`, `str.lower`, `str.isspace`, `os.path`
-- (`Python` of Recipe/Words.antt), `str.strip`, `str.casefold` and `str.isprintable` (`Wording` of
-- Targets.antt), `shlex.quote`, the keys that `secrets` draws, the answer of the
-- container switch, the frames and lines that the process writes, what `re` finds of a pattern in a
-- line of the log (`Python` of TestLog.antt), `datetime`, the names that `glob` finds, the draws of
-- `uuid`, `ipaddress` and `str.lower` (`Net` of Guard.antt), and the probes of
-- odoo_sheller/discovery.py where a session is opened (`World` of Registry/Opening.antt); json, the
-- clock and httpx's answers; what Odoo does (`Odoo` of Bootstrap.antt).
--
-- Not modelled: the bodies of requests and their validators, the routes that only read, the sockets'
-- loops, the tools that read source and list containers or tests, the texts of guidance, the spawn
-- inside `Registry.open`, the scripts of the probes and how they are run, json and the encoding of
-- frames, two listings of the journals at once, how the bootstrap drives Odoo's test runner and its
-- HTTP daemon, the web page and the desktop app.
--
pub mod Common
pub mod Mcp
pub mod Protocol
pub mod Rules
pub mod Recipe
pub mod Transport
pub mod Session
pub mod Targets
pub mod AgentCommit
pub mod Api
pub mod Bootstrap
pub mod Discovery
pub mod Guard
pub mod Journal
pub mod JsTests
pub mod Registry
pub mod TestLog
pub mod Tests
