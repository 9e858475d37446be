-- ===== src/Lib.antt =====
-- A verification library for hggutils, a Go package of JSON-RPC helpers.
--
-- The program. Package jsonrpc (jsonrpc/*.go) is a JSON-RPC 2.0 server and client over HTTP and
-- websocket. A server registers the methods of a Go value by reflection; one request resolves its
-- method, decodes its parameters, calls it and answers. A websocket connection carries requests
-- both ways: it keeps the requests in flight, the calls that it handles, and the sinks of result
-- channels, whose values travel as notifications. The client makes functions that send a request
-- and wait. Package rockfmw (rockfmw/*.go) is an RPC by service and method over HTTP POST and
-- websocket, independent of the first.
--
-- Files.
--   Common and its children: helpers on lists, texts, dictionaries (Go's maps, newest key first) and
--     Go's int64, and the operation of replacing a slice's element by its last.
--   Rpc/Message.antt: the messages of handler.go and util.go, Go values as reflection shows them, and
--     processFuncOut.
--   Rpc/Server.antt: RPCServer.handle, rpcError and doCall of jsonrpc/handler.go and server.go. Each
--     handler returns its effects in order: responses written, statuses, metrics, calls of methods,
--     registrations of channels, calls of done, and panics. Rpc/Server/Register.antt has register,
--     NewServer and AliasMethod, and Rpc/Server/Http.antt handleReader and ServeHTTP. Safety,
--     Answers, Calls, Params and Outcomes prove what a request leads to.
--   Rpc/Conn.antt: the state and the operations of wsConn (jsonrpc/websocket.go), each from a state to
--     a state with its actions, or to a panic. Rpc/Conn/Step.antt makes them one step function and a
--     relation of histories; Requests, Sinks, SinkRuns, Calls and Crash prove its invariants.
--   Rpc/Link.antt: handleWsConn itself. Its goroutines, those of its callers, the context and the closer
--     take steps in any order; the state has the Go channels with their room for 100, once, bretry and
--     the goroutine that dials again, and Rpc/Conn.antt's state within. Rpc/Link/Step.antt has the
--     cases of the select statements, Starts.antt handleWS, handleCtxAsync and handleChanOut.
--     Outcomes and Steps carry a property through the steps; Ends, Events, Order (with Replay), Final,
--     Cancelled, Stuck and Drain prove how a connection works and ends.
--   Rpc/OutChans.antt: the select loop of handleOutChans, and Refine its table of channels.
--   Rpc/Client.antt: makeRpcFunc, handleRpcCall and backoff.next (jsonrpc/client.go and util.go);
--     Rpc/Client/Buffer.antt the goroutine of makeOutChan, and Rpc/Client/Wait.antt and
--     Http.antt the doRequest of each transport. Rpc/Client/Options.antt is options.go and
--     options_server.go, and Rpc/Client/Setup.antt NewMergeClient, httpClient, websocketClient and
--     provide, which Provide.antt is about, with Functions.antt for makeRpcFunc.
--   Rpc/Spans.antt: getSpan of handler.go and the meta that a call sends, in the base64 of
--     Rpc/Base64.antt; Rpc/Spans/Traces.antt follows a span from client to server.
--   Readers.antt: jsonrpc/httpio/reader.go. Handlers of readers' requests and decoders of params take
--     steps in any order and meet on the channels of a shared map; Paths is about the path of a request,
--     Invariant, Sound and Meets about who meets whom.
--   Auth.antt: jsonrpc/auth/auth.go and handler.go, the permissions of contexts, the proxy that asks for
--     them and the handler that reads a token; Proxy, Tokens and Access prove who gets through.
--   Rock.antt: package rockfmw, a second and simpler RPC. Rock/Registry.antt is rpc_map.go,
--     Rock/Dispatch.antt the handling of one request in rpc_abstract.go, rpc_json.go and
--     rpc_http_client.go, Rock/Session.antt the reading goroutines of rpc_ws_server.go and
--     rpc_ws_client.go, and Rock/Serving.antt the servers' settings and routes and the client's Send.
--   Sql.antt: sql_unmarshal.go; Sql/Rows.antt is about ToMap, Sql/Decode.antt about a field,
--     Sql/Fields.antt about the structs, Sql/Marshal.antt about slices of them and of pointers to them.
--   Convert.antt: to_string.go; Convert/Decoding.antt relates it to the SQL decoder.
--   The modules named Tests run the definitions at concrete inputs.
--
-- Parameters. Code that is not in the repository is an argument: the decoders and encoders of
-- encoding/json, the float arithmetic of the backoff, the transport of a call, the bodies of
-- methods, the check of a token, the parse of an address and of a reader's identifier, the dial, the
-- matches of a router, the reads of a socket, the rows of a query, the parsing and printing of
-- floats, the text of an error value, and the spans of OpenCensus with their binary form. Texts are
-- lists of character codes, error values keep the chain of their messages as data.
--
-- Loops. The loop of a call's attempts runs on fuel, and any fuel above the number of attempts that
-- are tried again is enough; the digits of a number are written on fuel above the number; the other
-- loops are structural recursion or, where events drive them, relations.
--
-- Numbers. Identifiers of requests are the bit patterns of int64, identifiers of channels those of
-- uint64, both as natural numbers; sizes and codes are integers, with the wrap-around of int64
-- where the code adds.
--
-- Not modelled. Tags, logging and metrics beyond the counter that is raised; the read deadline of a
-- connection, whose end is an error of a read; a sender of an earlier connection that has not yet seen
-- its end when the next one starts; a wait of a sink for room in its buffer, whose goroutine is taken to
-- read on; the races on the maps that the sender and a returning reader share without a lock: what
-- each does to them is one step here; a decoder of a parameter that panics or returns no value; the
-- listeners, limits and timeouts of rockfmw; the helpers at the top of the repository (to_float.go,
-- utils_string.go, str_conv.go, copy.go), which are calls of the standard library, of iconv and of gob.
pub mod Auth
pub mod Common
pub mod Convert
pub mod Readers
pub mod Rock
pub mod Rpc
pub mod Sql
