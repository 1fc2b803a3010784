-- ===== src/Lib.antt =====
-- NGSI Adapter (ngsi_adapter/): an HTTP and UDP server that receives the outputs of monitoring
-- probes, has a parser for the probe turn them into NGSI attributes of an entity, and asks
-- ContextBroker to update that entity.
--
-- How the parts interact. For a POST request, `asyncRequestListener` (ngsi_adapter/lib/adapter.js)
-- takes the entity from the query, gets the parser from the factory
-- (ngsi_adapter/lib/parsers/common/factory.js) by the name in the path, answers, and collects the
-- body; at its end `updateContext` has the parser build the request to ContextBroker: the base
-- parser (base.js beside the factory) calls `parseRequest` and `getContextAttrs` of the probe's
-- parser, which for Nagios probes are those of nagios.js and of one file of
-- ngsi_adapter/lib/parsers/nagios. It then sends the request, again after temporary errors, and
-- reports the end. `udpRequestListener` does the same for a datagram.
--
-- Files, and what they model:
--   Js            what the source uses of the language: strings as lists of UTF-16 code units with
--                 split, join and trim (Js.Text), parseFloat (Js.Number), decimal numbers
--                 (Js.Integer), objects as association lists (Js.Object), JSON (Js.Json), and
--                 util.format of Node.js (Js.Format)
--   Platform      the functions of Node.js that are called, as the fields of a record: url.parse,
--                 url.format, path.join, path.resolve, http.STATUS_CODES, the decoding of a Buffer,
--                 the text of a double and two traces; theorems hold for every such record
--   Domain        the state of a request: the members that adapter.js sets on `reqdomain`
--   Config        ngsi_adapter/lib/common.js, and the options of ngsi_adapter/lib/config.js;
--                 Config.Options has the options, with their defaults from the environment and
--                 the loop over repeated ones; Config.Check is `config.check`
--   Logger        ngsi_adapter/lib/logger.js: `getContext` and `format`
--   Parsers.Nagios      nagios.js: `scan_lines` is the loop of `parseRequest`; Parsers.Nagios.Format
--                       is the format in the comment of `parseRequest`, as data types
--   Parsers.Probe       what the five parsers of Nagios probes have in common
--   Parsers.CheckDisk, CheckLoad, CheckMem, CheckProcs, CheckUsers
--                       `getContextAttrs` of check_disk.js, check_load.js, check_mem.sh.js,
--                       check_procs.js, check_users.js
--   Parsers.BaseParser  base.js: `getUpdateRequest` and the two payloads
--   Parsers.Factory     factory.js: `getParserByName` with its cache as explicit state, `getParser`;
--                       Parsers.Factory.Order has the cache as a quotient, by its look-ups
--   Parsers.Bundled     the parser objects of the five modules
--   Adapter.Effect      what the handlers do to the outside, as a list of effects in their order
--   Adapter.Update      `updateContext` of adapter.js, over the outcomes of its attempts
--   Adapter.Callback    `updateContextCallback`, the report of a response
--   Adapter.Endpoints   the UDP endpoints of `main`
--   Adapter.Main        `main`: how the process starts after `config.check`, and a state machine over
--                       what then happens to it: signals, uncaught exceptions, events of its sockets
--   Adapter.Listener    `asyncRequestListener` with its handlers of `data`, `end` and `error`
--                       (Adapter.Listener.Report: with the callback that it gives to `updateContext`)
--   Adapter.Udp         `udpRequestListener`
--   Adapter.Exchange    one exchange from one event to the next (`Move`), with the stage in which it
--                       waits; the functions of Adapter.Update, Listener and Udp run the same code as
--                       a whole
--   Adapter.Server      the listeners at work: a state is the cache of the factory and the exchanges;
--                       `Step` is a new request, a new datagram, or an event of one exchange, in any
--                       order; `Reach` are the states that can be got into
--                       (Adapter.Server.Emitted: the events `error` that the domain of a request takes
--                       from its request and response, laid over the effects of the exchange)
--   Adapter.Program     the process and the server together, after a start that serves: the messages of
--                       open sockets become datagrams of the server
--   Tests               samples of the sources, and the theorems at concrete inputs
--
-- Errors that are thrown are the result `err` with their message; an exception that nothing catches
-- is the effect `uncaught`, which the domain of the request turns into its answer 500 or a trace.
-- What the outside does is an argument: what `require` gives for a file, the chunks of a body, and
-- the list of what ContextBroker's side does with the attempts, at whose end nothing more has
-- happened yet. The modules `retry` and `optimist` are records with their documented behaviour as
-- named laws. A run of the server has one `require` and one configuration: no file of a parser
-- changes meanwhile (get_parser_by_name_again in Parsers.Factory.Caching is about files that do).
--
-- Loops are structural recursion. Only `JSON.parse` (Js.Json.Parse) is given fuel, three steps for
-- each character and three more: no step is repeated three times without consuming a character, and
-- Js.Json.Parse.Enough compares it with every larger amount.
--
-- Numbers stay the literals that parseFloat reads; their rounding and printing is the field
-- `print_number`. Timestamps are natural numbers. A prototype is known by whether its chain ends in
-- null or in the base parser, since the factory looks at nothing else.
-- The object made from another prototype is taken to have no `getUpdateRequest` of its own. The
-- value of an attribute is a number, a string, or undefined or null, whose `toString` throws.
--
-- Not modelled: the types that optimist gives to the values of options, which stay apart from those
-- of `Config.Config`; the package logops, which calls the functions of the logger, and the level
-- that it is set to; the queue of
-- requests that http.globalAgent keeps for maxRequests; the configuration of the build tool
-- (ngsi_adapter/Gruntfile.js), the event broker in C (ngsi_event_broker/), packaging and documentation.
mod Base
pub mod Js
pub mod Domain
pub mod Platform
pub mod Config
pub mod Parsers
pub mod Adapter
pub mod Logger
mod Tests
