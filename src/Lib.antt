-- ===== src/Lib.antt =====
-- Verification library of the C server modules of go-mesi, an engine for Edge Side Includes (ESI).
--
-- The engine is written in Go and built as the shared library libgomesi. A C module per web server
-- loads it, reads the server's directives, collects the HTML of a response, and hands it to the
-- engine with its settings. This library models the module of the Apache HTTP server,
-- servers/apache/mod_mesi.c and servers/apache/parse_json_config.h, and the module for nginx,
-- servers/nginx/ngx_http_mesi_module.c. Of the extension for PHP, php-ext/mesi.c, it has the
-- rendering of JSON, the record of the cache, and the test for a host.
--
-- The parts, and where they stand:
-- - Base: lists measured by native numbers, byte strings, integers, loops over strings.
-- - Json: the JSON that the module writes. Json/Text has mesi_json_string and a reader of strings,
--   Json/Number the format %d and a reader of it; Json/Value, Json/Read and Json/RoundTrip have
--   JSON values with their text and a reader, which the theorems on blobs use as the description
--   of what the other side reads.
-- - Apache/Number: parse_nonneg_int, parse_nonneg_off and parse_nonneg_int_bounded.
-- - Apache/Config: the record mesi_config, its limits, create_server_config and
--   merge_server_config. Config/Valid says what a valid configuration is.
-- - Apache/Hosts: mesi_unicode_space, mesi_has_hostname_token, the loop that cuts a line into hosts
--   and the one that joins them for the engine. Hosts/White has the white space of Unicode, read from
--   UTF-8, and Hosts/Fields strings.Fields of Go, by which libgomesi reads the joined list; both are
--   written without the tables of the module.
-- - Apache/Directive: the setters of the table mesi_directives; Directive/Servers those of Redis
--   and Memcached addresses, Directive/Template that of the cache key. Directive/Load runs the
--   directives of a block in order and nests blocks by the merge.
-- - Apache/ParseConfig and Apache/CacheConfig: the blobs for ParseJson and InitCacheWithConfig.
-- - Apache/RequestCtx: build_request_ctx_json with its growing buffer. A write outside the buffer
--   is none, and so is a loop that runs out of fuel.
-- - Apache/Headers: the tests on Content-Type and Edge-control, build_base_url, and
--   mesi_request_handler.
-- - Apache/Process: the pointers into libgomesi and the flags of a worker process, mesi_child_init,
--   mesi_child_cleanup, mesi_init_cache and mesi_init_http_client.
-- - Apache/Dispatch and Apache/Filter: mesi_response_filter. Dispatch is the choice of the entry
--   point of libgomesi with its arguments; Filter is the collection of buckets, the limit, and the
--   answer.
-- - Nginx/Render: mesi_json_escaped_len, mesi_json_write_escaped, mesi_json_append_str and the
--   functions on numbers. Nginx/Headers: mesi_header_signals_esi and ngx_http_mesi_contains.
-- - Nginx/Config: the record ngx_http_mesi_loc_conf_t, its limits, create_loc_conf and
--   merge_loc_conf. Config/Valid says what the setters and the merge leave.
-- - Nginx/Setters: the setters of the six directives for numbers, and their choice by directive.
-- - Nginx/Head: ngx_http_html_mesi_head_filter and its tests, ngx_http_mesi_has_esi_header,
--   ngx_test_is_html and ngx_test_content_compression.
-- - Nginx/Body: ngx_http_html_mesi_body_filter with its growing buffer and its limit. Body/Stream
--   runs the calls for one response in order, and says what they must send together.
-- - Nginx/CacheBlobs, Nginx/RequestCtx and Nginx/ParseConfig: the builders of JSON, each with the
--   pass that measures and the pass that writes. The step of the loops over a Cookie header and
--   the tables of white space for an allowlist are the ones of the Apache module, whose C text is the
--   same.
-- - Nginx/Worker: the pointers into libgomesi, ngx_http_mesi_thread_init and _thread_exit.
-- - Nginx/Parse: parse(), with its guards, the initialisation of the cache, and the choice of the
--   entry point. What C leaves undefined there, a read of a NULL Host or a write behind the buffer of
--   a blob, ends it with the output undefined. Nginx/Served puts the two filters and parse() together.
-- - Php/Buffer: mesi_putc, mesi_json_append_escape, mesi_json_append_str and mesi_appendf, which write
--   into a buffer of a fixed size. Php/ParseBlob: build_parse_json_blob. Php/CacheBlob:
--   build_cache_config_json, with the copies that it does not test. Php/CacheState: the record of
--   the last initialisation of the cache, and the step of parse_with_config that uses it.
--   Php/Hosts: mesi_unicode_ws_len and mesi_allowed_hosts_has_token.
--
-- How the code is read. A C string is the list of its bytes before the NUL; a pointer that may be
-- NULL is an Option; an APR array or table is a list. State that a function changes is an argument
-- and a result: the configuration in the setters, Process in the functions on libgomesi, State in
-- the filter. A setter gives the configuration and the message that refuses the directive, if one
-- does; messages are constructors, and their words and all log lines are left out. Functions of APR
-- that copy, concatenate or format strings have their documented meaning. What Apache, APR and
-- libgomesi decide is a parameter: ap_getword_conf, apr_table_get, apr_strtoff, the scheme, name
-- and port of the server, the symbols that dlsym finds, and what the functions of libgomesi return.
-- In the module for nginx a function that allocates takes which of its allocations succeed (the
-- records Alloc), and what it does after a failure is part of it; the page size, the macros that
-- merge two values (Macros), and the order of headers are parameters; searching a text, comparing
-- without case and formatting have their documented meaning; a list of headers in parts is one list.
-- A builder of JSON gives the text, or that an allocation failed, or that it wrote behind its buffer,
-- and what follows such a write is not modelled.
-- A bucket of a pipe or a socket carries what a read of it gives, and passing a brigade on leaves
-- it empty.
--
-- Bounds. The parsers of numbers carry an explicit error for a value outside the C type. Counts of
-- bytes are unbounded: the length of a string fits size_t, and the bytes of a page fit apr_off_t
-- together with the limit. The sums in the setters for nginx carry an explicit result for a value
-- outside the signed 64-bit range.
--
-- Fuel. The doubling loop of json_grow has one round more than the position it is to reach, and a
-- capacity that is not 0 grows by one or more in each; the loops over cookies, hosts and header
-- elements have one round per byte or one more, and each takes a byte or more. The doubling loop of
-- the body filter has as many rounds as the length it is to reach, and starts at one or more.
--
-- Not modelled: register_hooks and ngx_http_html_head_filter_init, which name the functions for the
-- servers; the slot setters that are nginx's own; of php-ext/mesi.c the functions parse and
-- parse_with_config with their options, and the request context; the Go code, whose engine is a
-- parameter.
mod Base
pub mod Json
pub mod Apache
pub mod Nginx
pub mod Php
